-- ===== src/Ingestion/Runs.antt =====
-- What every attempt keeps holds after any run, whatever befalls the attempts.
use sentinal_rag.Ingestion.Persist.{chunk_and_persist, embed_chunks}
use sentinal_rag.Base.Text.{Text, text_eq}
use sentinal_rag.Base.{Option-cases, ℕ, zero, suc, ◌≡◌, ap, inl, inr, Option, none, some, List}
use sentinal_rag.Ingestion.{World}
use sentinal_rag.Ingestion.Activities.{
  Services, Activity, whole, mark_job_running, mark_job_failed, download_and_hash,
  upsert_document_version, parse_document, update_document_version_storage_uri, finalize_document,
}
use sentinal_rag.Ingestion.Workflow.{
  Fault, fine, lost, torn, unreported, Sys, try_once, next_fault, later_faults, step,
  execute_activity, then_do, Payload, after_embed, after_chunk, after_update, after_parse,
  after_upsert, after_download, steps, on_failure, run,
}

module _ (I : World → Type 0) where
  -- The activity keeps `I`, done or torn.
  pub record Keeps {A : Type 0} (act : Activity A) : Type 0 where
    pub done : (w : World) → I w → I (act.body w).1
    pub part : (w : World) → I w → I (act.torn w)

  -- An activity of one transaction.
  pub whole-Keeps :
      {A : Type 0} (f : World → Option A × World)
      → ((w : World) → I w → I (f w).1)
      → Keeps (whole f)
  whole-Keeps f h = record { done = h; part = λ w i. i }

  pub try_once-keeps :
      {A : Type 0} (act : Activity A) (f : Fault) (w : World)
      → Keeps act
      → I w
      → I (try_once act f w).1
  unfolding try_once
  try_once-keeps act fine w k i = k.done w i
  try_once-keeps act lost w k i = i
  try_once-keeps act torn w k i = k.part w i
  try_once-keeps act unreported w k i = k.done w i

  -- An acknowledged result was returned by the body on a world where `I` holds.
  try_once-acked :
      {A : Type 0} (act : Activity A) (f : Fault) (w : World) (a : A)
      → I w
      → (try_once act f w).0 ≡ some a
      → (v : World) × I v × (act.body v ≡ (some a, (try_once act f w).1))
  unfolding try_once
  try_once-acked act fine w a i e = (w, i, ap (λ o. (o, (act.body w).1)) e)
  try_once-acked act lost w a i e = cc e
  try_once-acked act torn w a i e = cc e
  try_once-acked act unreported w a i e = cc e

  -- The same after up to `left` further attempts.
  pub execute_activity-acked :
      {A : Type 0} (left : ℕ) (act : Activity A) (s : Sys) (a : A)
      → Keeps act
      → I s.world
      → (execute_activity left act s).0 ≡ some a
      → (v : World) × I v × (act.body v ≡ (some a, (execute_activity left act s).1.world))
  unfolding execute_activity
  execute_activity-acked zero act s a k i e = try_once-acked act (next_fault s.faults) s.world a i e
  execute_activity-acked (suc left) act s a k i e = elim (Option-cases (step act s).0) [
    | inl again ↦
        let e' = rw (execute_activity, again) at e in
        rw (execute_activity, again)
          (execute_activity-acked left act (step act s).1 a k
            (try_once-keeps act (next_fault s.faults) s.world k i) e')
    | inr (b, got) ↦
        let e' = rw (execute_activity, got) at e in
        rw (execute_activity, got) (try_once-acked act (next_fault s.faults) s.world a i e')
  ]

  module _ (G : List Fault → Type 0) (later : (fs : List Fault) → G fs → G (later_faults fs)) where
    abbrev pub Holds : Sys → Type 0
    Holds s = I s.world × G s.faults

    step-Holds :
        {A : Type 0} (act : Activity A) (s : Sys) → Keeps act → Holds s → Holds (step act s).1
    step-Holds act s k h =
        (try_once-keeps act (next_fault s.faults) s.world k h.0, later s.faults h.1)

    pub execute_activity-Holds :
        {A : Type 0} (left : ℕ) (act : Activity A) (s : Sys)
        → Keeps act
        → Holds s
        → Holds (execute_activity left act s).1
    unfolding execute_activity
    execute_activity-Holds zero act s k h = step-Holds act s k h
    execute_activity-Holds (suc left) act s k h = elim (Option-cases (step act s).0) [
      | inl again ↦
          rw (execute_activity, again)
            (execute_activity-Holds left act (step act s).1 k (step-Holds act s k h))
      | inr (b, got) ↦ rw (execute_activity, got) (step-Holds act s k h)
    ]

    pub then_do-Holds :
        {A B : Type 0} (r : Option A × Sys) (f : A → Sys → Option B × Sys)
        → Holds r.1
        → ((a : A) (s : Sys) → Holds s → Holds (f a s).1)
        → Holds (then_do r f).1
    unfolding then_do
    then_do-Holds (none, s) f h k = h
    then_do-Holds (some a, s) f h k = k a s h

    module _ (sv : Services) (p : Payload) where
      -- Every activity between the first and the last keeps `I`.
      pub record StepsKeep : Type 0 where
        pub kept_upsert :
            (hash : Text) → Keeps (upsert_document_version p.document_id hash p.storage_uri)
        pub kept_parse : Keeps (parse_document sv p.storage_uri p.mime_type p.parsing_strategy)
        pub kept_move :
            (version_id : ℕ) (uri : Text)
            → Keeps (update_document_version_storage_uri version_id uri)
        pub kept_chunk :
            (version_id : ℕ) (uri : Text)
            → Keeps (chunk_and_persist sv p.document_id version_id uri p.chunking_strategy)
        pub kept_embed : (version_id : ℕ) → Keeps (embed_chunks sv version_id p.embedding_model)
        pub kept_finish : (n : ℕ) → Keeps (finalize_document p.job_id p.document_id n)

      pub download-Keeps : (uri : Text) → Keeps (download_and_hash sv uri)
      unfolding download_and_hash
      download-Keeps uri = whole-Keeps _ (λ w i. i)

      module _ (k : StepsKeep) where
        after_embed-Holds : (id n m : ℕ) (s : Sys) → Holds s → Holds (after_embed sv p id n m s).1
        unfolding after_embed
        after_embed-Holds id n m s h =
            then_do-Holds _ _ (execute_activity-Holds 4 _ s (k.kept_finish n) h) (λ _ t g. g)

        after_chunk-Holds : (id n : ℕ) (s : Sys) → Holds s → Holds (after_chunk sv p id n s).1
        unfolding after_chunk
        after_chunk-Holds id n s h =
            then_do-Holds _ _ (execute_activity-Holds 4 _ s (k.kept_embed id) h)
              (after_embed-Holds id n)

        after_update-Holds :
            (id : ℕ) (uri : Text) (u : Unit {0}) (s : Sys)
            → Holds s
            → Holds (after_update sv p id uri u s).1
        unfolding after_update
        after_update-Holds id uri u s h =
            then_do-Holds _ _ (execute_activity-Holds 4 _ s (k.kept_chunk id uri) h)
              (after_chunk-Holds id)

        after_parse-Holds :
            (id : ℕ) (uris : Text × Text) (s : Sys) → Holds s → Holds (after_parse sv p id uris s).1
        unfolding after_parse
        after_parse-Holds id uris s h =
            then_do-Holds _ _ (execute_activity-Holds 4 _ s (k.kept_move id uris.0) h)
              (after_update-Holds id uris.1)

        after_upsert-Holds : (id : ℕ) (s : Sys) → Holds s → Holds (after_upsert sv p id s).1
        unfolding after_upsert
        after_upsert-Holds id s h =
            then_do-Holds _ _ (execute_activity-Holds 1 _ s k.kept_parse h) (after_parse-Holds id)

        after_download-Holds :
            (hash : Text) (s : Sys) → Holds s → Holds (after_download sv p hash s).1
        unfolding after_download
        after_download-Holds hash s h =
            then_do-Holds _ _ (execute_activity-Holds 4 _ s (k.kept_upsert hash) h)
              after_upsert-Holds

        pub steps-Holds : (s : Sys) → Holds s → Holds (steps sv p s).1
        unfolding steps
        steps-Holds s h =
            then_do-Holds _ _ (execute_activity-Holds 4 _ s (download-Keeps p.storage_uri) h)
              after_download-Holds

      pub run-Holds :
          (s : Sys)
          → StepsKeep
          → Keeps (mark_job_running p.job_id p.document_id)
          → Keeps (mark_job_failed p.job_id p.document_id)
          → Holds s
          → Holds (run sv p s).1
      unfolding run on_failure execute_activity
      run-Holds s k start stop h =
          then_do-Holds _ _ (execute_activity-Holds 4 _ s start h)
            (λ _ s1 h1. ended (steps sv p s1) (steps-Holds k s1 h1))
        where
          ended : (r : Option (ℕ × ℕ) × Sys) → Holds r.1 → Holds (on_failure sv p r).1
          ended (some r, t) h1 = h1
          ended (none, t) h1 = execute_activity-Holds 2 _ t stop h1
