-- ===== src/Audit/Service.antt =====
-- The dual write of audit events, packages/shared/python/sentinelrag_shared/audit/service.py. The
-- sinks are an argument: a write returns whether it did not raise, and the sink after it. A task
-- in flight is the number of a secondary sink and the event; `drain` runs the tasks in order. Log
-- messages are left out; the counter of failures is kept.
pub mod Laws
use sentinal_rag.Base.{if◌then◌else◌, ℕ, zero, suc, ◌+◌, Bool, true, false, List, [], ◌∷◌, ◌++◌}

pub record Sink (E : Type 0) : Type 1 where
  pub State : Type 0
  pub write : E → State → Bool × State

-- `InMemoryAuditSink`
pub record InMemory (E : Type 0) : Type 0 where
  pub records : List E
  pub fail : Bool

unfoldable pub write_in_memory : {E : Type 0} → E → InMemory E → Bool × InMemory E
write_in_memory event s =
    if s.fail
    then (false, record s { fail = false })
    else (true, record s { records = s.records ++ event ∷ [] })

module _ {E : Type 0} (sink : Sink E) where
  pub record Service : Type 0 where
    pub primary : sink.State
    pub secondaries : List sink.State
    pub inflight : List (ℕ × E)
    pub failures : ℕ

  -- The tasks of one event for the sinks from number `i` on.
  unfoldable pub tasks : ℕ → List sink.State → E → List (ℕ × E)
  tasks i [] event = []
  tasks i (s ∷ ss) event = (i, event) ∷ tasks (suc i) ss event

  -- `DualWriteAuditService.record`
  unfoldable pub record_event : E → Service → Bool × Service
  unfolding tasks
  record_event event v =
      let written = sink.write event v.primary in
      if written.0
      then (
        true,
        record v { primary = written.1; inflight = v.inflight ++ tasks 0 v.secondaries event },
      )
      else (false, record v { primary = written.1 })

  -- `_safe_write` on the sink of number `i`: the sinks after it, and the failures to count.
  unfoldable pub safe_write : ℕ → E → List sink.State → List sink.State × ℕ
  safe_write i event [] = ([], 0)
  safe_write zero event (s ∷ ss) =
      ((sink.write event s).1 ∷ ss, if (sink.write event s).0 then 0 else 1)
  safe_write (suc i) event (s ∷ ss) = let rest = safe_write i event ss in (s ∷ rest.0, rest.1)

  unfoldable pub run_tasks : List (ℕ × E) → List sink.State → ℕ → List sink.State × ℕ
  unfolding safe_write
  run_tasks [] ss failures = (ss, failures)
  run_tasks ((i, event) ∷ ts) ss failures =
      let after = safe_write i event ss in run_tasks ts after.0 (failures + after.1)

  unfoldable pub drain : Service → Service
  unfolding run_tasks
  drain v =
      let done = run_tasks v.inflight v.secondaries v.failures in
      record v { secondaries = done.0; inflight = []; failures = done.1 }
