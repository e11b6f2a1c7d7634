-- ===== src/Rag/Orchestrator.antt =====
-- The orchestrator, apps/api/app/services/rag/orchestrator.py, with the session stage
-- (stages/session.py) and the budget stage (stages/budget.py). `Run` holds what the source keeps
-- in `QueryContext` and in the stores; a stage may raise, and what it wrote before stays. The
-- other stages, the answers of the database and of the audit sink are parameters. Metrics,
-- latencies and messages are left out; amounts are whole units of the smallest price.
pub mod Keeps
pub mod CleanStages
pub mod Release
pub mod Outcome
use sentinal_rag.Base.{
  if◌then◌else◌, or_else, is_nil, ℕ, ◌+◌, String, Bool, true, ◌&&◌, not, Option, none, some, List,
  [], ◌∷◌, ◌++◌, str_eq,
}
use sentinal_rag.Redis.{Redis}
use sentinal_rag.Base.Dict.{string_eq, Dict, insert}
use sentinal_rag.Base.Text.{Text, text_eq}
use sentinal_rag.Budget.Decision.{
  TenantBudget, BudgetAction, allow, downgrade, deny, BudgetDecision, check_budget, budget_exceeded,
  proceed, enforce_or_raise,
}
use sentinal_rag.Budget.Pricing.{estimate_completion_cost}
use sentinal_rag.Budget.Reservation.{Stored, reserve, release, total_reserved}

pub data Error : Type 0 where
  runtime_error : Error
  budget_error : Error
  provider_timeout : Error
  other_error : Error
  -- not an exception: SCAN gave more than `scan_pages` pages
  scan_unfinished : Error

pub data Status : Type 0 where
  running : Status
  completed : Status
  abstained : Status
  failed : Status

pub data AuditType : Type 0 where
  query_executed : AuditType
  query_failed : AuditType
  budget_denied : AuditType
  budget_downgraded : AuditType

pub record Inputs : Type 0 where
  pub tenant_id : Text
  pub model : String
  pub max_tokens : ℕ
  pub abstain_if_unsupported : Bool
  -- there is a Redis client, and the TTL of a reservation
  pub has_reservations : Bool
  pub ttl_seconds : ℕ
  -- what the database holds of the tenant's budget
  pub budget : Option TenantBudget
  pub spend : ℕ
  -- bound on the pages of a SCAN
  pub scan_pages : ℕ

module _ (client : Redis Stored) where
  pub record Run : Type 0 where
    pub query_session_id : Option Text
    pub reranked : List ℕ
    pub estimated_input_tokens : Option ℕ
    pub embedding_cost : Option ℕ
    pub decision : Option BudgetDecision
    pub reservation_amount : Option ℕ
    pub effective_model : String
    pub answer_text : String
    pub gen_cost : ℕ
    pub store : client.Store
    pub sessions : Dict Text Status
    pub audit : List AuditType

  abbrev pub Stage : Type 0
  Stage = Run → Option Error × Run

  -- One stage after another; a raise ends the sequence.
  unfoldable pub and_then : Stage → Stage → Stage
  and_then f g r = elim ((f r).0) [ none ↦ g (f r).1 | some e ↦ (some e, (f r).1) ]

  -- The stages that are modelled elsewhere, and what the outside world answers.
  pub record Stages : Type 0 where
    pub retrieval : Stage
    pub rerank : Stage
    pub context : Stage
    pub prompt : Stage
    pub generation : Stage
    pub grounding : Stage
    pub persistence : Stage
    pub new_session_id : Text
    pub db_raises : Run → Option Error
    pub audit_raises : AuditType → Run → Option Error

  module _ (inputs : Inputs) (stages : Stages) where
    open stages use {db_raises, audit_raises}

    -- `SessionStage.open`
    unfoldable pub session_open : Stage
    session_open r = elim (db_raises r) [
      | some e ↦ (some e, r)
      | none ↦ (
        none,
        record r {
          query_session_id = some stages.new_session_id;
          sessions = insert stages.new_session_id running r.sessions;
        },
      )
    ]

    -- `SessionStage.close`
    unfoldable pub session_close : Status → Stage
    session_close status r = elim r.query_session_id [
      | none ↦ (some runtime_error, r)
      | some sid ↦ elim (db_raises r) [
        | some e ↦ (some e, r)
        | none ↦ (none, record r { sessions = insert sid status r.sessions })
      ]
    ]

    unfoldable pub record_audit : AuditType → Stage
    record_audit event r = elim (audit_raises event r) [
      | some e ↦ (some e, r)
      | none ↦ (none, record r { audit = r.audit ++ event ∷ [] })
    ]

    -- `BudgetStage._record_audit` under its test
    unfoldable pub audit_decision : BudgetAction → Stage
    unfolding record_audit
    audit_decision allow r = (none, r)
    audit_decision downgrade r = record_audit budget_downgraded r
    audit_decision deny r = record_audit budget_denied r

    -- The reservation at the end of `BudgetStage.run`.
    unfoldable pub place_reservation : ℕ → Text → Stage
    place_reservation estimate sid r = if not inputs.has_reservations then (none, r) else (
      none,
      record r {
        reservation_amount = some estimate;
        store = (reserve client true inputs.tenant_id sid estimate inputs.ttl_seconds r.store).1;
      },
    )

    -- `downgrade_target or ctx.generation_cfg.model`
    abbrev pub target_or : Option String → String
    target_or none = inputs.model
    target_or (some t) = if str_eq t "" then inputs.model else t

    unfoldable pub enforce_decision : BudgetDecision → ℕ → Text → Stage
    unfolding place_reservation
    enforce_decision decision estimate sid r = elim (enforce_or_raise decision) [
      | budget_exceeded _ ↦ (some budget_error, r)
      | proceed target ↦
          place_reservation estimate sid (record r { effective_model = target_or target })
    ]

    -- `BudgetStage.run` once prompt and session are there.
    unfoldable pub decide_budget : ℕ → Text → ℕ → Stage
    unfolding enforce_decision audit_decision
    decide_budget estimate sid reserved r =
        let decision = check_budget inputs.budget inputs.spend reserved estimate inputs.model in
        and_then (audit_decision decision.action) (enforce_decision decision estimate sid)
          (record r { decision = some decision })

    abbrev pub estimate_of : Run → ℕ → ℕ
    estimate_of r tokens =
        estimate_completion_cost inputs.model tokens inputs.max_tokens + or_else r.embedding_cost 0

    -- From what `total_reserved` returned.
    unfoldable pub budget_with : ℕ → Text → Option ℕ → Stage
    unfolding decide_budget
    budget_with tokens sid none r = (some scan_unfinished, r)
    budget_with tokens sid (some reserved) r = decide_budget (estimate_of r tokens) sid reserved r

    -- `check_budget` asks for the reservations only where a budget is active.
    unfoldable pub reserved_under : Option TenantBudget → client.Store → Option ℕ × client.Store
    reserved_under none s = (some 0, s)
    reserved_under (some budget) s =
        total_reserved client inputs.has_reservations inputs.scan_pages inputs.tenant_id s

    -- From the token count of the filled prompt and the session's id.
    unfoldable pub budget_for : Option ℕ → Option Text → Stage
    unfolding budget_with reserved_under
    budget_for none sid r = (some runtime_error, r)
    budget_for (some tokens) none r = (some runtime_error, r)
    budget_for (some tokens) (some sid) r =
        let (total, s) = reserved_under inputs.budget r.store in
        budget_with tokens sid total (record r { store = s })

    -- `BudgetStage.run`; the prompt stage leaves the token count of the filled prompt.
    unfoldable pub budget_run : Stage
    unfolding budget_for
    budget_run r = budget_for r.estimated_input_tokens r.query_session_id r

    -- The answer without generation, and the choice between the two.
    unfoldable pub answer : Stage
    unfolding budget_run and_then
    answer r =
        if is_nil r.reranked && inputs.abstain_if_unsupported
        then (
          none,
          record r {
            answer_text =
                "I do not have enough information in the provided sources to answer that confidently.";
            effective_model = inputs.model;
            gen_cost = 0;
          },
        )
        else and_then budget_run stages.generation r

    -- `_release_reservation_if_any`
    unfoldable pub release_reservation_if_any : Run → Run
    release_reservation_if_any r =
        if not inputs.has_reservations then r else elim r.query_session_id [
          | none ↦ r
          | some sid ↦ elim r.reservation_amount [
            | none ↦ r
            | some amount ↦ record r { store = release client true inputs.tenant_id sid r.store }
          ]
        ]

    -- `_finalize_success`
    unfoldable pub finalize_success : Stage
    unfolding and_then session_close record_audit release_reservation_if_any
    finalize_success r =
        and_then (session_close (if is_nil r.reranked then abstained else completed))
          (and_then (record_audit query_executed) (λ t. (none, release_reservation_if_any t))) r

    -- The body of the `try`.
    unfoldable pub pipeline : Stage
    unfolding and_then session_open answer finalize_success
    pipeline = and_then session_open (
        and_then stages.retrieval (
          and_then stages.rerank (
            and_then stages.context (
              and_then stages.prompt (
                and_then answer
                  (and_then stages.grounding (and_then stages.persistence finalize_success)))))))

    -- The `except` clause: each step is tried, and its own error suppressed.
    unfoldable pub after_failure : Run → Run
    unfolding session_close record_audit release_reservation_if_any
    after_failure r =
        release_reservation_if_any (record_audit query_failed (session_close failed r).1).1

    unfoldable pub run : Stage
    unfolding pipeline after_failure
    run r = elim (pipeline r).0 [
      | none ↦ (none, (pipeline r).1)
      | some e ↦ (some e, after_failure (pipeline r).1)
    ]
