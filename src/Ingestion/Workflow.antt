-- ===== src/Ingestion/Workflow.antt =====
-- `IngestionWorkflow.run`, workflows/ingestion.py. Temporal runs an activity again until an attempt
-- is acknowledged or the policy's attempts are used up; what befalls the attempts is a list of
-- faults, one for each attempt, and none after its end. The waits and timeouts are left out.
use sentinal_rag.Base.{ℕ, zero, suc, String, Option, none, some, List, [], ◌∷◌}
use sentinal_rag.Base.Text.{Text}
use sentinal_rag.Ingestion.{World}
use sentinal_rag.Ingestion.Activities.{
  Services, Activity, mark_job_running, mark_job_failed, download_and_hash, upsert_document_version,
  parse_document, update_document_version_storage_uri, finalize_document,
}
use sentinal_rag.Ingestion.Persist.{chunk_and_persist, embed_chunks}

pub data Fault : Type 0 where
  fine : Fault
  -- nothing is written; part is written; all is written and the worker dies before it reports
  lost : Fault
  torn : Fault
  unreported : Fault

pub record Sys : Type 0 where
  pub world : World
  pub faults : List Fault

-- One attempt.
unfoldable pub try_once : {A : Type 0} → Activity A → Fault → World → Option A × World
try_once act fine w = act.body w
try_once act lost w = (none, w)
try_once act torn w = (none, act.torn w)
try_once act unreported w = (none, (act.body w).1)

abbrev pub next_fault : List Fault → Fault
next_fault [] = fine
next_fault (f ∷ fs) = f

abbrev pub later_faults : List Fault → List Fault
later_faults [] = []
later_faults (f ∷ fs) = fs

-- The attempt at the head of the schedule.
abbrev pub step : {A : Type 0} → Activity A → Sys → Option A × Sys
step act s =
    let (o, w) = try_once act (next_fault s.faults) s.world in
    (o, record { world = w; faults = later_faults s.faults })

-- `workflow.execute_activity` with a policy of `left + 1` attempts.
unfoldable pub execute_activity : {A : Type 0} → ℕ → Activity A → Sys → Option A × Sys
execute_activity zero act s = step act s
execute_activity (suc left) act s =
    let rest = execute_activity left act (step act s).1 in
    elim (step act s).0 [ some a ↦ step act s | none ↦ rest ]

-- An activity, then what the workflow does with its result.
unfoldable pub then_do :
    {A B : Type 0} → Option A × Sys → (A → Sys → Option B × Sys) → Option B × Sys
then_do (none, s) f = (none, s)
then_do (some a, s) f = f a s

-- `IngestionWorkflowInput`
pub record Payload : Type 0 where
  pub job_id : ℕ
  pub document_id : ℕ
  pub storage_uri : Text
  pub mime_type : Text
  pub parsing_strategy : Text
  pub chunking_strategy : Text
  pub embedding_model : String

-- `_STANDARD_RETRY`, `RetryPolicy(maximum_attempts=2)` and `RetryPolicy(maximum_attempts=3)`, as
-- the attempts after the first
abbrev pub standard_retry : ℕ
standard_retry = 4

module _ (sv : Services) (p : Payload) where
  -- The body of the `try`, each function from the result of the activity it is named for: the
  -- result is the version's id and the number of chunks.
  unfoldable pub after_embed : ℕ → ℕ → ℕ → Sys → Option (ℕ × ℕ) × Sys
  after_embed version_id chunk_count _ s =
      then_do
        (execute_activity standard_retry (finalize_document p.job_id p.document_id chunk_count) s)
        (λ _ t. (some (version_id, chunk_count), t))

  unfoldable pub after_chunk : ℕ → ℕ → Sys → Option (ℕ × ℕ) × Sys
  after_chunk version_id chunk_count s =
      then_do (execute_activity standard_retry (embed_chunks sv version_id p.embedding_model) s)
        (after_embed version_id chunk_count)

  unfoldable pub after_update : ℕ → Text → Unit {0} → Sys → Option (ℕ × ℕ) × Sys
  after_update version_id elements_uri _ s =
      then_do
        (execute_activity standard_retry
          (chunk_and_persist sv p.document_id version_id elements_uri p.chunking_strategy) s)
        (after_chunk version_id)

  unfoldable pub after_parse : ℕ → Text × Text → Sys → Option (ℕ × ℕ) × Sys
  after_parse version_id uris s =
      then_do
        (execute_activity standard_retry (update_document_version_storage_uri version_id uris.0) s)
        (after_update version_id uris.1)

  unfoldable pub after_upsert : ℕ → Sys → Option (ℕ × ℕ) × Sys
  after_upsert version_id s =
      then_do
        (execute_activity 1 (parse_document sv p.storage_uri p.mime_type p.parsing_strategy) s)
        (after_parse version_id)

  unfoldable pub after_download : Text → Sys → Option (ℕ × ℕ) × Sys
  after_download hash s =
      then_do
        (execute_activity standard_retry (upsert_document_version p.document_id hash p.storage_uri)
          s)
        after_upsert

  unfoldable pub steps : Sys → Option (ℕ × ℕ) × Sys
  steps s =
      then_do (execute_activity standard_retry (download_and_hash sv p.storage_uri) s)
        after_download

  -- The `except` clause: the error is raised again, or that of `mark_job_failed`.
  unfoldable pub on_failure : Option (ℕ × ℕ) × Sys → Option (ℕ × ℕ) × Sys
  on_failure (some r, s) = (some r, s)
  on_failure (none, s) = (none, (execute_activity 2 (mark_job_failed p.job_id p.document_id) s).1)

  -- `IngestionWorkflow.run`
  unfoldable pub run : Sys → Option (ℕ × ℕ) × Sys
  run s =
      then_do (execute_activity standard_retry (mark_job_running p.job_id p.document_id) s)
        (λ _ s1. on_failure (steps s1))
