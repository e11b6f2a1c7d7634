-- ===== src/Audit/Service/Laws.antt =====
-- What the dual write promises of the primary sink and of the secondary ones.
use sentinal_rag.Base.{
  if◌then◌else◌, length, length-append, ℕ, suc, ◌+◌, ◌≡◌, refl, ap, ◌∙◌, true, List, [], ◌∷◌, ◌++◌,
  map, append_assoc, arith,
}
use sentinal_rag.Audit.Service.{Sink, Service, tasks, record_event, safe_write, run_tasks, drain}

module _ {E : Type 0} (sink : Sink E) (event : E) where
  -- The number of sinks that refuse the event.
  unfoldable pub refusals : List sink.State → ℕ
  refusals [] = 0
  refusals (s ∷ ss) = (if (sink.write event s).0 then 0 else 1) + refusals ss

  safe_write-append :
      (pre : List sink.State) (s : sink.State) (ss : List sink.State)
      → safe_write sink (length pre) event (pre ++ s ∷ ss)
        ≡ (pre ++ (sink.write event s).1 ∷ ss, if (sink.write event s).0 then 0 else 1)
  unfolding safe_write
  safe_write-append [] s ss = refl
  safe_write-append (p ∷ pre) s ss =
      ap (λ (r : List sink.State × ℕ). (p ∷ r.0, r.1)) (safe_write-append pre s ss)

  run_tasks-append :
      (pre ss : List sink.State) (n : ℕ)
      → run_tasks sink (tasks sink (length pre) ss event) (pre ++ ss) n
        ≡ (pre ++ map (λ s. (sink.write event s).1) ss, n + refusals ss)
  unfolding run_tasks tasks refusals
  run_tasks-append pre [] n = ap (λ m. (pre ++ [], m)) (omega arith)
  run_tasks-append pre (s ∷ ss) n =
      let w = (sink.write event s).1 in
      let c : ℕ = if (sink.write event s).0 then 0 else 1 in
      let len : length (pre ++ w ∷ []) ≡ suc (length pre) =
        omega (arith, length-append pre (w ∷ [])) in
      let rest = map (λ x. (sink.write event x).1) ss in
      let ih = run_tasks-append (pre ++ w ∷ []) ss (n + c) in
      let ih' = rw (len, append_assoc pre (w ∷ []) ss, append_assoc pre (w ∷ []) rest) at ih in
      ap
        (λ (r : List sink.State × ℕ).
          run_tasks sink (tasks sink (suc (length pre)) ss event) r.0 (n + r.1))
        (safe_write-append pre s ss)
      ∙ ih'
      ∙ ap (λ m. (pre ++ w ∷ rest, m)) (omega arith)

  -- An event is accepted exactly if the primary sink accepts it; no secondary sink has been
  -- written by then, whatever the sinks are.
  pub record_event-primary :
      (v : Service sink)
      → ((record_event sink event v).0 ≡ (sink.write event v.primary).0)
        × ((record_event sink event v).1.primary ≡ (sink.write event v.primary).1)
        × ((record_event sink event v).1.secondaries ≡ v.secondaries)
        × ((record_event sink event v).1.failures ≡ v.failures)
  unfolding record_event
  record_event-primary v = (ground arith, ground arith, ground arith, ground arith)

  -- After an event that the primary sink accepted and a drain, with nothing in flight before, each
  -- secondary sink has been written the event exactly once, refusals have only been counted, and
  -- nothing is in flight.
  pub drain-record_event :
      (v : Service sink)
      → v.inflight ≡ []
      → (sink.write event v.primary).0 ≡ true
      → ((drain sink (record_event sink event v).1).secondaries
          ≡ map (λ s. (sink.write event s).1) v.secondaries)
        × ((drain sink (record_event sink event v).1).failures
            ≡ v.failures + refusals v.secondaries)
        × ((drain sink (record_event sink event v).1).inflight ≡ [])
  unfolding record_event drain
  drain-record_event v idle accepted =
      let done = run_tasks-append [] v.secondaries v.failures in
      (ground (arith, done), ground (arith, done), ground arith)
