-- ===== src/Tests/RagExamples.antt =====
-- The theorems on the orchestrator at concrete inputs.
use sentinal_rag.Budget.Pricing.{price_of, estimate_completion_cost}
use sentinal_rag.Base.{is_some, ◌≡◌, refl, true, none, some, [], ◌∷◌}
use sentinal_rag.Base.Dict.{nat_eq, string_eq, lookup, insert, erase}
use sentinal_rag.Base.Text.{codes, text_eq}
use sentinal_rag.Budget.Decision.{absent, decide, check_budget, enforce_or_raise}
use sentinal_rag.Budget.Reservation.{
  reservation_key, tenant_prefix, add_values, reserve, release, fetch, scan_loop, total_reserved,
}
use sentinal_rag.Rag.Orchestrator.{
  provider_timeout, Inputs, Run, Stage, and_then, Stages, session_open, session_close, record_audit,
  audit_decision, place_reservation, enforce_decision, decide_budget, budget_with, reserved_under,
  budget_for, budget_run, answer, release_reservation_if_any, pipeline, after_failure, run,
}
use sentinal_rag.Rag.Orchestrator.Outcome.{decide_budget-denies}
use sentinal_rag.Rag.Orchestrator.Keeps.{IsNeutral}
use sentinal_rag.Rag.Orchestrator.Release.{run-releases}
use sentinal_rag.Tests.Instances.{in_memory}

abbrev inputs : Inputs
inputs = record {
  tenant_id = codes "t";
  model = "openai/gpt-4o";
  max_tokens = 10;
  abstain_if_unsupported = true;
  has_reservations = true;
  ttl_seconds = 60;
  budget = some (record {
    tenant_id = 1;
    limit_usd = 100;
    soft_threshold_pct = 80;
    hard_threshold_pct = 100;
    downgrade_policy = absent;
    current_period_start = 0;
    current_period_end = 30;
  });
  spend = 10;
  scan_pages = 2;
}

abbrev fresh_run : Run in_memory
fresh_run = record {
  query_session_id = none;
  reranked = 1 ∷ [];
  estimated_input_tokens = some 5;
  embedding_cost = none;
  decision = none;
  reservation_amount = none;
  effective_model = "";
  answer_text = "";
  gen_cost = 0;
  store = [];
  sessions = [];
  audit = [];
}

abbrev does_nothing : Stage in_memory
does_nothing r = (none, r)

-- The provider fails after the reservation is placed.
abbrev times_out : Stage in_memory
times_out r = (some provider_timeout, r)

abbrev stages : Stages in_memory
stages = record {
  retrieval = does_nothing;
  rerank = does_nothing;
  context = does_nothing;
  prompt = does_nothing;
  generation = times_out;
  grounding = does_nothing;
  persistence = does_nothing;
  new_session_id = codes "s";
  db_raises = λ r. none;
  audit_raises = λ event r. none;
}

does_nothing-IsNeutral : IsNeutral in_memory does_nothing
does_nothing-IsNeutral r = (refl, refl, λ j. refl)

times_out-IsNeutral : IsNeutral in_memory times_out
times_out-IsNeutral r = (refl, refl, λ j. refl)

run-releases_example :
    lookup (reservation_key (codes "t") (codes "s")) (run in_memory inputs stages fresh_run).1.store
    ≡ none
unfolding lookup insert erase run pipeline and_then session_open answer budget_run budget_for
    budget_with reserved_under decide_budget audit_decision record_audit enforce_decision
    enforce_or_raise place_reservation after_failure session_close release_reservation_if_any
    check_budget decide total_reserved scan_loop fetch reserve release reservation_key tenant_prefix
    estimate_completion_cost price_of add_values
run-releases_example =
    run-releases in_memory inputs stages refl (λ k s. refl) does_nothing-IsNeutral
      does_nothing-IsNeutral does_nothing-IsNeutral does_nothing-IsNeutral times_out-IsNeutral
      does_nothing-IsNeutral does_nothing-IsNeutral fresh_run (codes "s") refl refl refl

decide_budget-denies_example :
    is_some (decide_budget in_memory inputs stages 500 (codes "s") 0 fresh_run).0 ≡ true
    × ((decide_budget in_memory inputs stages 500 (codes "s") 0 fresh_run).1.store ≡ [])
    × ((decide_budget in_memory inputs stages 500 (codes "s") 0 fresh_run).1.reservation_amount
        ≡ none)
    × ((decide_budget in_memory inputs stages 500 (codes "s") 0 fresh_run).1.effective_model ≡ "")
unfolding check_budget decide
decide_budget-denies_example =
    decide_budget-denies in_memory inputs stages 500 (codes "s") 0 fresh_run refl
