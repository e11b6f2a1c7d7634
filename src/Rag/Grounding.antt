-- ===== src/Rag/Grounding.antt =====
-- The grounding stage, apps/api/app/services/rag/stages/grounding.py, with the flags of
-- packages/shared/python/sentinelrag_shared/feature_flags/: `resolve_hallucination_flags` of
-- flags.py and `StaticFeatureFlags` of client.py. Floats are an interface; the overlap score, the
-- NLI model, the judge and the sampler are arguments, and latencies are left out.
pub mod Laws
use sentinal_rag.Base.{
  if◌then◌else◌, is_nil, String, ◌≡◌, Bool, true, false, ◌&&◌, ◌||◌, not, Option, none, some,
}
use sentinal_rag.Base.Dict.{◌===◌, string_eq, Dict, lookup}
use sentinal_rag.Base.Text.{Text, codes, text_eq, strip}

pub record Floats : Type 1 where
  pub F : Type 0
  pub zero_f : F
  pub one_f : F
  -- `a < b`
  pub smaller : F → F → Bool
  -- `float(b)`
  pub of_bool : Bool → F
  -- `bool(x)`
  pub truth : F → Bool
  pub zero_smaller_one : smaller zero_f one_f ≡ true
  pub smaller_irrefl : (a : F) → smaller a a ≡ false
  pub smaller_asym : (a b : F) → smaller a b ≡ true → smaller b a ≡ false

pub data NliVerdict : Type 0 where
  entail : NliVerdict
  neutral : NliVerdict
  contradict : NliVerdict
  skipped : NliVerdict

-- `ABSTAIN_ANSWER`
abbrev pub abstain_answer : Text
abstain_answer =
    codes "I do not have enough information in the provided sources to answer that confidently."

module _ (floats : Floats) where
  open floats use {F, zero_f, one_f, smaller}

  -- An override; values of other types are left out.
  pub data FlagValue : Type 0 where
    boolean : Bool → FlagValue
    number : F → FlagValue

  unfoldable pub bool_flag : Dict String FlagValue → String → Bool → Bool
  bool_flag overrides key default = elim (lookup key overrides) [
    | none ↦ default
    | some v ↦ elim v [ boolean b ↦ b | number x ↦ floats.truth x ]
  ]

  unfoldable pub float_flag : Dict String FlagValue → String → F → F
  float_flag overrides key default = elim (lookup key overrides) [
    | none ↦ default
    | some v ↦ elim v [ boolean b ↦ floats.of_bool b | number x ↦ x ]
  ]

  -- `max(0.0, min(1.0, x))`
  unfoldable pub clamp : F → F
  clamp x = let y = if smaller x one_f then x else one_f in if smaller zero_f y then y else zero_f

  pub record HallucinationCascadeFlags : Type 0 where
    pub nli_enabled : Bool
    pub judge_enabled : Bool
    pub judge_sample_rate : F

  -- The defaults are those of `HALLUCINATION_CASCADE_DEFAULTS`.
  unfoldable pub resolve_hallucination_flags : Dict String FlagValue → HallucinationCascadeFlags
  unfolding clamp bool_flag float_flag
  resolve_hallucination_flags overrides = record {
    nli_enabled = bool_flag overrides "hallucination.nli.enabled" true;
    judge_enabled = bool_flag overrides "hallucination.judge.enabled" false;
    judge_sample_rate = clamp (float_flag overrides "hallucination.judge.sample_rate" zero_f);
  }

  -- The fields of the context that the stage writes.
  pub record Signals : Type 0 where
    pub grounding_score : Option F
    pub nli_verdict : Option NliVerdict
    pub judge_verdict : Option Text
    pub judge_reasoning : Option Text

  unfoldable pub should_short_circuit : Text → Text → Bool
  should_short_circuit answer context =
      is_nil (strip answer) || (answer === abstain_answer || is_nil (strip context))

  abbrev pub is_risky : Option NliVerdict → Bool
  is_risky none = false
  is_risky (some entail) = false
  is_risky (some _) = true

  -- `sample` is the next value of the sampler.
  unfoldable pub should_judge : Option NliVerdict → F → F → Bool
  should_judge verdict rate sample =
      is_risky verdict || (smaller zero_f rate && smaller sample rate)

  module _ (overlap : Text → Text → Option F) (classify : Text → Text → NliVerdict)
      (judge : Text → Text → Text → Text × Text) where
    -- Layers two and three, once the flags are resolved.
    unfoldable pub run_layers :
        HallucinationCascadeFlags → F → Text → Text → Text → Signals → Signals
    unfolding should_judge
    run_layers cascade sample query answer context s =
        let verdict =
          if cascade.nli_enabled then some (classify answer context) else s.nli_verdict in
        if not cascade.judge_enabled || not (should_judge verdict cascade.judge_sample_rate sample)
        then record s { nli_verdict = verdict }
        else record s {
          nli_verdict = verdict;
          judge_verdict = some (judge query context answer).0;
          judge_reasoning = some (judge query context answer).1;
        }

    -- `GroundingStage.run`
    unfoldable pub run : Dict String FlagValue → F → Text → Text → Text → Signals → Signals
    unfolding should_short_circuit run_layers resolve_hallucination_flags
    run overrides sample query answer context s =
        let scored = record s { grounding_score = overlap answer context } in
        if should_short_circuit answer context
        then scored
        else run_layers (resolve_hallucination_flags overrides) sample query answer context scored
