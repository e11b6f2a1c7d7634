-- ===== src/Rag/Orchestrator/CleanStages.antt =====
-- The session and budget stages of the orchestrator keep a query clean, and the release leaves it
-- with nothing reserved.
use sentinal_rag.Base.Dict.{beq_refl}
use sentinal_rag.Budget.Decision.{
  TenantBudget, BudgetAction, allow, downgrade, deny, BudgetDecision, check_budget,
  enforce_or_raise,
}
use sentinal_rag.Rag.Orchestrator.Keeps.{
  total_reserved-keeps, IsClean, IsNeutral, Preserves, and_then-Preserves, neutral-Preserves,
  Enforced-cases,
}
use sentinal_rag.Rag.Orchestrator.{
  Status, AuditType, budget_denied, budget_downgraded, Inputs, Run, Stage, and_then, Stages,
  session_open, session_close, record_audit, audit_decision, place_reservation, target_or,
  enforce_decision, decide_budget, estimate_of, budget_with, reserved_under, budget_for, budget_run,
  answer, release_reservation_if_any,
}
use sentinal_rag.Base.{
  Bool-cases, Option-cases, is_nil, ℕ, ◌≡◌, refl, subst, ◌∙◌, inl, inr, true, ◌&&◌, Option, none,
  some, arith,
}
use sentinal_rag.Redis.{Redis}
use sentinal_rag.Base.Text.{Text, text_eq}
use sentinal_rag.Budget.Reservation.{Stored, reservation_key, release}

module _ (client : Redis Stored) where
  module _ (inputs : Inputs) (stages : Stages client) where
    abbrev pub Clean : Run client → Type 0
    Clean = IsClean client inputs.tenant_id

    -- No reservation is stored for the query.
    abbrev pub IsReleased : Run client → Type 0
    IsReleased r =
        (sid : Text)
        → r.query_session_id ≡ some sid
        → client.held r.store (reservation_key inputs.tenant_id sid) ≡ none

    -- Where the stage does not raise, it leaves nothing reserved.
    abbrev pub Ends : Stage client → Type 0
    Ends f = (r : Run client) → Clean r → (f r).0 ≡ none → IsReleased (f r).1

    pub and_then-Ends :
        (f g : Stage client) → Preserves client Clean f → Ends g → Ends (and_then client f g)
    unfolding and_then
    and_then-Ends f g pf eg r h went = elim (Option-cases (f r).0) [
      | inl ok ↦ rw (and_then, ok) (eg (f r).1 (pf r h) (rw (and_then, ok) at went))
      | inr (e, raised) ↦ let no = rw (and_then, raised) at went in cc no
    ]

    pub record_audit-IsNeutral :
        (event : AuditType) → IsNeutral client (record_audit client inputs stages event)
    unfolding record_audit
    record_audit-IsNeutral event r = (ground arith, ground arith, λ j. ground arith)

    pub session_close-IsNeutral :
        (status : Status) → IsNeutral client (session_close client inputs stages status)
    unfolding session_close
    session_close-IsNeutral status r = (ground arith, ground arith, λ j. ground arith)

    audit_decision-IsNeutral :
        (action : BudgetAction) → IsNeutral client (audit_decision client inputs stages action)
    unfolding audit_decision
    audit_decision-IsNeutral allow r = (refl, refl, λ j. refl)
    audit_decision-IsNeutral downgrade r = record_audit-IsNeutral budget_downgraded r
    audit_decision-IsNeutral deny r = record_audit-IsNeutral budget_denied r

    module _ (on : inputs.has_reservations ≡ true)
        (deletes : (k : Text) (s : client.Store) → (client.delete k s).0 ≡ some tt) where
      place_reservation-Preserves :
          (estimate : ℕ) (sid : Text)
          → Preserves client Clean (place_reservation client inputs stages estimate sid)
      unfolding place_reservation
      place_reservation-Preserves estimate sid r h =
          rw (place_reservation, on) (λ id open_ noted. cc noted)

      enforce_decision-Preserves :
          (decision : BudgetDecision) (estimate : ℕ) (sid : Text)
          → Preserves client Clean (enforce_decision client inputs stages decision estimate sid)
      unfolding enforce_decision
      enforce_decision-Preserves decision estimate sid r h =
          elim (Enforced-cases client (enforce_or_raise decision)) [
            | inl (d, denied) ↦ rw (enforce_decision, denied) h
            | inr (target, passed) ↦
                rw (enforce_decision, passed)
                  (place_reservation-Preserves estimate sid
                    (record r { effective_model = target_or client inputs stages target }) h)
          ]

      pub release-IsReleased :
          (r : Run client)
          → Clean r
          → IsReleased (release_reservation_if_any client inputs stages r)
      unfolding release_reservation_if_any release
      release-IsReleased r h id opened =
          let key = reservation_key inputs.tenant_id id in
          let here : r.query_session_id ≡ some id = ground arith in
          elim (Option-cases r.reservation_amount) [
            | inl unreserved ↦ ground (arith, h id here unreserved)
            | inr (amount, reserved) ↦
                ground
                  (arith, client.delete_drops key key r.store (deletes key r.store), beq_refl key)
          ]

      decide_budget-Preserves :
          (estimate : ℕ) (sid : Text) (reserved : ℕ)
          → Preserves client Clean (decide_budget client inputs stages estimate sid reserved)
      unfolding decide_budget
      decide_budget-Preserves estimate sid reserved r h =
          let decision = check_budget inputs.budget inputs.spend reserved estimate inputs.model in
          and_then-Preserves client Clean (audit_decision client inputs stages decision.action)
            (enforce_decision client inputs stages decision estimate sid)
            (neutral-Preserves client inputs.tenant_id
              (audit_decision client inputs stages decision.action)
              (audit_decision-IsNeutral decision.action))
            (enforce_decision-Preserves decision estimate sid)
            (record r { decision = some decision }) h

      budget_with-Preserves :
          (tokens : ℕ) (sid : Text) (total : Option ℕ)
          → Preserves client Clean (budget_with client inputs stages tokens sid total)
      unfolding budget_with
      budget_with-Preserves tokens sid none r h = h
      budget_with-Preserves tokens sid (some reserved) r h =
          decide_budget-Preserves (estimate_of client inputs stages r tokens) sid reserved r h

      reserved_under-keeps :
          (budget : Option TenantBudget) (key : Text) (s : client.Store)
          → client.held (reserved_under client inputs stages budget s).1 key ≡ client.held s key
      unfolding reserved_under
      reserved_under-keeps none key s = refl
      reserved_under-keeps (some budget) key s =
          total_reserved-keeps client inputs.has_reservations inputs.scan_pages inputs.tenant_id key
            s

      budget_for-Preserves :
          (tokens : Option ℕ) (sid : Option Text)
          → Preserves client Clean (budget_for client inputs stages tokens sid)
      unfolding budget_for
      budget_for-Preserves none sid r h = h
      budget_for-Preserves (some tokens) none r h = h
      budget_for-Preserves (some tokens) (some sid) r h =
          let scan = reserved_under client inputs stages inputs.budget r.store in
          budget_with-Preserves tokens sid scan.0 (record r { store = scan.1 })
            (λ id opened noted.
              reserved_under-keeps inputs.budget (reservation_key inputs.tenant_id id) r.store
              ∙ h id opened noted)

      budget_run-Preserves : Preserves client Clean (budget_run client inputs stages)
      unfolding budget_run
      budget_run-Preserves r h =
          budget_for-Preserves r.estimated_input_tokens r.query_session_id r h

      pub answer-Preserves :
          IsNeutral client stages.generation → Preserves client Clean (answer client inputs stages)
      unfolding answer
      answer-Preserves neutral r h =
          elim (Bool-cases (is_nil r.reranked && inputs.abstain_if_unsupported)) [
            | inl abstain ↦ rw (answer, abstain) h
            | inr generate ↦
                rw (answer, generate)
                  (and_then-Preserves client Clean (budget_run client inputs stages)
                    stages.generation budget_run-Preserves
                    (neutral-Preserves client inputs.tenant_id stages.generation neutral) r h)
          ]

      pub session_open-Preserves :
          (r : Run client)
          → r.query_session_id ≡ none
          → client.held r.store (reservation_key inputs.tenant_id stages.new_session_id) ≡ none
          → Clean (session_open client inputs stages r).1
      unfolding session_open
      session_open-Preserves r closed fresh = elim (Option-cases (stages.db_raises r)) [
        | inl fine ↦
            rw (session_open, fine)
              (λ id opened noted.
                subst (λ k. client.held r.store (reservation_key inputs.tenant_id k) ≡ none)
                  (cc opened) fresh)
        | inr (e, raised) ↦ rw (session_open, raised) (λ id opened. cc (closed, opened))
      ]
