-- ===== src/Evaluation.antt =====
-- An evaluation run, apps/temporal-worker/sentinelrag_worker/workflows/evaluation.py with the
-- activities of activities/evaluation.py, for one run and its cases. What Temporal's retries come
-- to are the `Answers`; messages are left out. The workflow calls `execute_activity` for
-- `score_case` with an argument `kwargs`, which that function of Temporal does not have; the
-- TypeError is caught, so no execution of `score_case` is ever started from here.
pub mod Laws
pub mod Evaluators
use sentinal_rag.Base.{
  if◌then◌else◌, is_some, then_some, map_some, ℕ, zero, suc, Bool, ◌&&◌, Option, none, some, List,
  [], ◌∷◌,
}
use sentinal_rag.Base.Dict.{nat_eq, Dict, insert}

pub data RunStatus : Type 0 where
  queued running completed failed : RunStatus

-- A row of `evaluation_scores`: the four scores of a scored case (from an earlier run of the
-- activity), or a failure.
pub data ScoreRow : Type 0 where
  scored : Option ℕ → Option ℕ → Option ℕ → Option ℕ → ScoreRow
  not_scored : ScoreRow

pub record Tables : Type 0 where
  -- the row of `evaluation_runs`, if the tenant sees it
  pub status : Option RunStatus
  -- the rows of `evaluation_scores` of the run, by case
  pub rows : Dict ℕ ScoreRow

-- What the executions come to; `true` is an acknowledged one.
pub record Answers : Type 0 where
  pub started : Bool
  pub case_ids : Option (List ℕ)
  pub recorded : ℕ → Bool
  pub finalized : Bool

-- `UPDATE evaluation_runs …`; a row count other than 1 raises.
unfoldable pub set_status : Bool → RunStatus → Tables → Option Tables
set_status acknowledged status t =
    if is_some t.status && acknowledged then some (record t { status = some status }) else none

-- `mark_run_running`
unfoldable pub mark_run_running : Answers → Tables → Option Tables
mark_run_running a t = set_status a.started running t

-- `finalize_run`
unfoldable pub finalize_run : Answers → RunStatus → Tables → Option Tables
finalize_run a status t = set_status a.finalized status t

-- The upsert of `record_case_failure`.
unfoldable pub record_case_failure : Answers → ℕ → Tables → Option Tables
record_case_failure a case_id t =
    if a.recorded case_id then some (record t { rows = insert case_id not_scored t.rows }) else none

-- `cases_completed`, `cases_failed` and the tables.
pub record Progress : Type 0 where
  pub cases_completed : ℕ
  pub cases_failed : ℕ
  pub tables : Tables

-- `execute_activity(score_case, kwargs=…)`: `none` is the TypeError.
abbrev pub call_score_case : ℕ → Tables → Option Tables
call_score_case case_id t = none

-- The body of the loop for one case: `cases_completed += 1`, or the `except` clause, where `none`
-- is its own error.
unfoldable pub one_case : Answers → ℕ → Progress → Option Progress
one_case a case_id p = elim (call_score_case case_id p.tables) [
  | some t ↦ some (record p { cases_completed = suc p.cases_completed; tables = t })
  | none ↦
      map_some (λ t. record p { cases_failed = suc p.cases_failed; tables = t })
        (record_case_failure a case_id p.tables)
]

-- The loop.
unfoldable pub each_case : Answers → List ℕ → Progress → Option Progress
each_case a [] p = some p
each_case a (case_id ∷ rest) p = then_some (one_case a case_id p) (λ q. each_case a rest q)

-- `"failed" if cases_failed else "completed"`
abbrev pub final_status : ℕ → RunStatus
final_status zero = completed
final_status (suc n) = failed

-- From the list of cases on.
unfoldable pub run_cases : Answers → List ℕ → Tables → Option (Progress × Tables)
run_cases a case_ids t =
    then_some (each_case a case_ids (record { cases_completed = 0; cases_failed = 0; tables = t }))
      (λ p. map_some (λ t'. (p, t')) (finalize_run a (final_status p.cases_failed) p.tables))

-- `EvaluationRunWorkflow.run`: the counts and the tables at the end, `none` if an error escapes.
unfoldable pub run : Answers → Tables → Option (Progress × Tables)
run a t =
    then_some (mark_run_running a t)
      (λ t'. then_some a.case_ids (λ case_ids. run_cases a case_ids t'))
