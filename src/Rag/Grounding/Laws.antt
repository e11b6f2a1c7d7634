-- ===== src/Rag/Grounding/Laws.antt =====
-- When the judge runs, and the bounds of its sampling rate.
use sentinal_rag.Base.{
  is_some, is_nil, String, ◌≡◌, refl, ◌≢◌, ◌↔◌, ◌⊎◌, true, false, Option, none, some, [], ◌∷◌,
  arith,
}
use sentinal_rag.Base.Dict.{string_eq, Dict}
use sentinal_rag.Base.Text.{Text, text_beq_iff, text_eq, strip}
use sentinal_rag.Rag.Grounding.{
  Floats, NliVerdict, entail, neutral, contradict, skipped, abstain_answer, FlagValue, bool_flag,
  float_flag, clamp, resolve_hallucination_flags, should_short_circuit, is_risky, should_judge,
  run_layers, run,
}

nil_iff : (t : Text) → (is_nil t ≡ false) ↔ (t ≢ [])
nil_iff [] = ((λ e. cc e), (λ ne. absurd (ne refl)))
nil_iff (c ∷ t) = ((λ _ e. cc e), (λ _. refl))

module _ (floats : Floats) where
  open floats use {F, zero_f, one_f, smaller}

  clamp_lem :
      (x : F) → (smaller (clamp floats x) zero_f ≡ false) × (smaller one_f (clamp floats x) ≡ false)
  unfolding clamp
  clamp_lem x =
      let a = floats.zero_smaller_one in
      let b = floats.smaller_asym zero_f one_f a in
      let c = floats.smaller_irrefl zero_f in
      let d = floats.smaller_irrefl one_f in
      let e = floats.smaller_asym x one_f in
      let f = floats.smaller_asym zero_f x in (ground arith, ground arith)

  -- Whatever the flag server holds, the resolved sampling rate is neither below 0 nor above 1.
  pub resolve_hallucination_flags-bounded :
      (overrides : Dict String (FlagValue floats))
      → (smaller (resolve_hallucination_flags floats overrides).judge_sample_rate zero_f ≡ false)
        × (smaller one_f (resolve_hallucination_flags floats overrides).judge_sample_rate ≡ false)
  unfolding resolve_hallucination_flags
  resolve_hallucination_flags-bounded overrides =
      clamp_lem (float_flag floats overrides "hallucination.judge.sample_rate" zero_f)

  module _ (overlap : Text → Text → Option F) (classify : Text → Text → NliVerdict)
      (judge : Text → Text → Text → Text × Text) where
    -- The NLI layer is on and says of the answer that it is neutral, contradicts, or was skipped.
    abbrev pub IsRisky : Dict String (FlagValue floats) → Text → Text → Type 0
    IsRisky overrides answer context =
        (bool_flag floats overrides "hallucination.nli.enabled" true ≡ true)
        × ((classify answer context ≡ neutral)
            ⊎ (classify answer context ≡ contradict)
            ⊎ (classify answer context ≡ skipped))

    -- The sampling rate of the flag server, cut to the range from 0 to 1, is above 0 and above
    -- the sample.
    abbrev pub IsSampled : Dict String (FlagValue floats) → F → Type 0
    IsSampled overrides sample =
        let rate =
          clamp floats (float_flag floats overrides "hallucination.judge.sample_rate" zero_f) in
        (smaller zero_f rate ≡ true) × (smaller sample rate ≡ true)

    -- There is an answer that is not the abstention, and a context.
    abbrev pub IsJudgeable : Text → Text → Type 0
    IsJudgeable answer context =
        (strip answer ≢ []) × (answer ≢ abstain_answer) × (strip context ≢ [])

    is_risky_iff :
        (v : NliVerdict)
        → (is_risky floats (some v) ≡ true) ↔ ((v ≡ neutral) ⊎ (v ≡ contradict) ⊎ (v ≡ skipped))
    is_risky_iff entail = ground arith
    is_risky_iff neutral = ground arith
    is_risky_iff contradict = ground arith
    is_risky_iff skipped = ground arith

    should_short_circuit_iff :
        (answer context : Text)
        → (should_short_circuit floats answer context ≡ false) ↔ IsJudgeable answer context
    unfolding should_short_circuit
    should_short_circuit_iff answer context =
        ground (
          arith,
          nil_iff (strip answer),
          nil_iff (strip context),
          text_beq_iff answer abstain_answer,
        )

    -- From a context without verdicts, the stage ends with a judge's verdict exactly if there is an
    -- answer that is not the abstention and a context, the judge is on, and either the NLI layer is
    -- on and its verdict is neutral, contradict or skipped, or the sample is below a rate above 0.
    pub run-judges :
        (overrides : Dict String (FlagValue floats)) (sample : F) (query answer context : Text)
        → (is_some
              (run floats overlap classify judge overrides sample query answer context (record {
                grounding_score = none;
                nli_verdict = none;
                judge_verdict = none;
                judge_reasoning = none;
              })).judge_verdict
            ≡ true)
          ↔ (IsJudgeable answer context
              × (bool_flag floats overrides "hallucination.judge.enabled" false ≡ true)
              × (IsRisky overrides answer context ⊎ IsSampled overrides sample))
    unfolding run run_layers resolve_hallucination_flags should_judge
    run-judges overrides sample query answer context =
        ground
          (arith, should_short_circuit_iff answer context, is_risky_iff (classify answer context))
