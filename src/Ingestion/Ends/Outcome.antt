-- ===== src/Ingestion/Ends/Outcome.antt =====
-- A run ends with the job completed and the document indexed, or with both failed.
use sentinal_rag.Base.{
  Option-cases, is_some, ℕ, ◌≡◌, refl, subst, ap, ◌⊎◌, inl, inr, true, false, Option, none, some,
}
use sentinal_rag.Base.Text.{Text}
use sentinal_rag.Ingestion.{completed, failed, indexed, broken, World}
use sentinal_rag.Ingestion.Activities.{
  Services, Activity, mark_job_running, mark_job_failed, finalize_document,
}
use sentinal_rag.Ingestion.Workflow.{
  Sys, execute_activity, then_do, Payload, after_embed, after_chunk, after_update, after_parse,
  after_upsert, after_download, steps, on_failure, run,
}
use sentinal_rag.Ingestion.Runs.{
  Keeps, execute_activity-acked, Holds, execute_activity-Holds, StepsKeep, download-Keeps,
  steps-Holds,
}
use sentinal_rag.Ingestion.Ends.{IsMild, IsMild-later, execute_activity-returns}
use sentinal_rag.Ingestion.Ends.Exists.{
  RowsExist, EndedAs, mark_job_failed-EndedAs, finalize_document-EndedAs, mark_job_running-exist,
  mark_job_failed-exist, finalize_document-exist, upsert-exist, parse_document-exist,
  update_uri-exist, chunk_and_persist-exist, embed_chunks-exist,
}

module _ (sv : Services) (p : Payload) where
  abbrev Exist : World → Type 0
  Exist = RowsExist p.job_id p.document_id

  abbrev Ready : Sys → Type 0
  Ready = Holds Exist IsMild IsMild-later

  steps_keep : StepsKeep Exist IsMild IsMild-later sv p
  steps_keep = record {
    kept_upsert = λ hash. upsert-exist p.job_id p.document_id p.document_id hash p.storage_uri;
    kept_parse =
        parse_document-exist p.job_id p.document_id sv p.storage_uri p.mime_type p.parsing_strategy;
    kept_move = update_uri-exist p.job_id p.document_id;
    kept_chunk = λ id uri.
        chunk_and_persist-exist p.job_id p.document_id sv p.document_id id uri p.chunking_strategy;
    kept_embed = λ id. embed_chunks-exist p.job_id p.document_id sv id p.embedding_model;
    kept_finish = λ n. finalize_document-exist p.job_id p.document_id n;
  }

  -- If there is a result, the job is completed and the document indexed.
  abbrev Completes : Option (ℕ × ℕ) × Sys → Type 0
  Completes r =
      (b : ℕ × ℕ) → r.0 ≡ some b → EndedAs p.job_id p.document_id completed indexed r.1.world

  then_do-Completes :
      {A : Type 0} (r : Option A × Sys) (f : A → Sys → Option (ℕ × ℕ) × Sys)
      → Ready r.1
      → ((a : A) (s : Sys) → Ready s → Completes (f a s))
      → Completes (then_do r f)
  unfolding then_do
  then_do-Completes (none, s) f h k b e = cc e
  then_do-Completes (some a, s) f h k b e = k a s h b e

  ran :
      {A : Type 0} (left : ℕ) (act : Activity A) (s : Sys)
      → Keeps Exist act
      → Ready s
      → Ready (execute_activity left act s).1
  ran left act s k h = execute_activity-Holds Exist IsMild IsMild-later left act s k h

  finish-Completes :
      (n : ℕ) (s : Sys) (u : Unit {0})
      → Ready s
      → (execute_activity 4 (finalize_document p.job_id p.document_id n) s).0 ≡ some u
      → EndedAs p.job_id p.document_id completed indexed
          (execute_activity 4 (finalize_document p.job_id p.document_id n) s).1.world
  finish-Completes n s u h e =
      let (w, exists, done) =
        execute_activity-acked Exist 4 (finalize_document p.job_id p.document_id n) s u
          (steps_keep.kept_finish n) h.0 e in
      subst (EndedAs p.job_id p.document_id completed indexed) (ap (λ r. r.1) done)
        (finalize_document-EndedAs p.job_id p.document_id n w exists)

  after_embed-Completes : (id n m : ℕ) (s : Sys) → Ready s → Completes (after_embed sv p id n m s)
  unfolding after_embed then_do
  after_embed-Completes id n m s h b e =
      elim (Option-cases ((execute_activity 4 (finalize_document p.job_id p.document_id n) s).0)) [
        | inl x ↦ let e' = rw (then_do, x) at e in cc e'
        | inr (u, x) ↦ rw (then_do, x) (finish-Completes n s u h x)
      ]

  after_chunk-Completes : (id n : ℕ) (s : Sys) → Ready s → Completes (after_chunk sv p id n s)
  unfolding after_chunk
  after_chunk-Completes id n s h =
      then_do-Completes _ _ (ran 4 _ s (steps_keep.kept_embed id) h) (after_embed-Completes id n)

  after_update-Completes :
      (id : ℕ) (uri : Text) (u : Unit {0}) (s : Sys)
      → Ready s
      → Completes (after_update sv p id uri u s)
  unfolding after_update
  after_update-Completes id uri u s h =
      then_do-Completes _ _ (ran 4 _ s (steps_keep.kept_chunk id uri) h) (after_chunk-Completes id)

  after_parse-Completes :
      (id : ℕ) (uris : Text × Text) (s : Sys) → Ready s → Completes (after_parse sv p id uris s)
  unfolding after_parse
  after_parse-Completes id uris s h =
      then_do-Completes _ _ (ran 4 _ s (steps_keep.kept_move id uris.0) h)
        (after_update-Completes id uris.1)

  after_upsert-Completes : (id : ℕ) (s : Sys) → Ready s → Completes (after_upsert sv p id s)
  unfolding after_upsert
  after_upsert-Completes id s h =
      then_do-Completes _ _ (ran 1 _ s steps_keep.kept_parse h) (after_parse-Completes id)

  after_download-Completes :
      (hash : Text) (s : Sys) → Ready s → Completes (after_download sv p hash s)
  unfolding after_download
  after_download-Completes hash s h =
      then_do-Completes _ _ (ran 4 _ s (steps_keep.kept_upsert hash) h) after_upsert-Completes

  steps-Completes : (s : Sys) → Ready s → Completes (steps sv p s)
  unfolding steps
  steps-Completes s h =
      then_do-Completes _ _
        (ran 4 _ s (download-Keeps Exist IsMild IsMild-later sv p p.storage_uri) h)
        after_download-Completes

  -- With a result the job is completed and the document indexed, without one both are failed.
  abbrev pub IsEnded : Option (ℕ × ℕ) × Sys → Type 0
  IsEnded r =
      ((is_some r.0 ≡ true) × EndedAs p.job_id p.document_id completed indexed r.1.world)
      ⊎ ((is_some r.0 ≡ false) × EndedAs p.job_id p.document_id failed broken r.1.world)

  on_failure-IsEnded :
      (r : Option (ℕ × ℕ) × Sys) → Ready r.1 → Completes r → IsEnded (on_failure sv p r)
  unfolding on_failure mark_job_failed
  on_failure-IsEnded (some b, s) h c = inl (refl, c b refl)
  on_failure-IsEnded (none, s) h c =
      let act = mark_job_failed p.job_id p.document_id in
      let (u, acked) = execute_activity-returns act 0 s (λ w. (tt, refl)) h.1 in
      let (w, exists, done) =
        execute_activity-acked Exist 2 act s u (mark_job_failed-exist p.job_id p.document_id) h.0
          acked in
      inr (
        refl,
        subst (EndedAs p.job_id p.document_id failed broken) (ap (λ x. x.1) done)
            (mark_job_failed-EndedAs p.job_id p.document_id w exists),
      )

  -- If of three attempts in a row one is fine, and the rows of the job and of the document exist,
  -- then a run ends either with a result, the job completed and the document indexed, or with an
  -- error and both marked as failed: none is left running.
  pub run-IsEnded :
      (s : Sys) → RowsExist p.job_id p.document_id s.world → IsMild s.faults → IsEnded (run sv p s)
  unfolding run then_do mark_job_running
  run-IsEnded s exist mild =
      let act = mark_job_running p.job_id p.document_id in
      let (u, acked) = execute_activity-returns act 2 s (λ w. (tt, refl)) mild in
      let s1 = (execute_activity 4 act s).1 in
      let h1 = ran 4 act s (mark_job_running-exist p.job_id p.document_id) (exist, mild) in
      rw (then_do, acked)
        (on_failure-IsEnded (steps sv p s1)
          (steps-Holds Exist IsMild IsMild-later sv p steps_keep s1 h1) (steps-Completes s1 h1))
