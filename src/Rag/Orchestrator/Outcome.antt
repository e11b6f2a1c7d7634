-- ===== src/Rag/Orchestrator/Outcome.antt =====
-- What the budget stage does once the decision is known.
use sentinal_rag.Base.{is_some, ℕ, ◌≡◌, ◌≢◌, true, none, some, arith}
use sentinal_rag.Base.Text.{Text}
use sentinal_rag.Redis.{Redis}
use sentinal_rag.Budget.Decision.{deny, check_budget, enforce_or_raise}
use sentinal_rag.Budget.Reservation.{Stored, reserve}
use sentinal_rag.Rag.Orchestrator.{
  AuditType, budget_downgraded, Inputs, Run, and_then, Stages, record_audit, audit_decision,
  place_reservation, enforce_decision, decide_budget,
}

module _ (client : Redis Stored) (inputs : Inputs) (stages : Stages client) where
  -- A denied query always raises, whatever the audit sink answers: the store, the noted
  -- reservation and the effective model stay what they were.
  pub decide_budget-denies :
      (estimate : ℕ) (sid : Text) (reserved : ℕ) (r : Run client)
      → (check_budget inputs.budget inputs.spend reserved estimate inputs.model).action ≡ deny
      → is_some (decide_budget client inputs stages estimate sid reserved r).0 ≡ true
        × ((decide_budget client inputs stages estimate sid reserved r).1.store ≡ r.store)
        × ((decide_budget client inputs stages estimate sid reserved r).1.reservation_amount
            ≡ r.reservation_amount)
        × ((decide_budget client inputs stages estimate sid reserved r).1.effective_model
            ≡ r.effective_model)
  unfolding decide_budget and_then audit_decision record_audit enforce_decision enforce_or_raise
  decide_budget-denies estimate sid reserved r denied =
      (ground arith, ground arith, ground arith, ground arith)

  -- A query that is not denied passes the stage if the audit sink accepts its event: with a client
  -- the whole estimate is noted and handed to `reserve`.
  decide_budget-passes :
      (estimate : ℕ) (sid : Text) (reserved : ℕ) (r : Run client)
      → (check_budget inputs.budget inputs.spend reserved estimate inputs.model).action ≢ deny
      → ((event : AuditType) (t : Run client) → stages.audit_raises event t ≡ none)
      → inputs.has_reservations ≡ true
      → (decide_budget client inputs stages estimate sid reserved r).0 ≡ none
        × ((decide_budget client inputs stages estimate sid reserved r).1.reservation_amount
            ≡ some estimate)
        × ((decide_budget client inputs stages estimate sid reserved r).1.store
            ≡ (reserve client true inputs.tenant_id sid estimate inputs.ttl_seconds r.store).1)
  unfolding decide_budget and_then audit_decision record_audit enforce_decision enforce_or_raise
      place_reservation
  decide_budget-passes estimate sid reserved r passed accepts on =
      let decision = check_budget inputs.budget inputs.spend reserved estimate inputs.model in
      let accepted = accepts budget_downgraded (record r { decision = some decision }) in
      (ground (arith, accepted), ground (arith, accepted), ground (arith, accepted))
