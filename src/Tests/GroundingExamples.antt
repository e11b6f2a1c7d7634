-- ===== src/Tests/GroundingExamples.antt =====
-- The theorems on grounding at concrete inputs; floats are percent.
use sentinal_rag.Base.{
  ltb, if◌then◌else◌, is_some, ℕ, String, ◌≡◌, refl, ◌↔◌, ◌⊎◌, true, false, Option, none, [], ◌∷◌,
  arith,
}
use sentinal_rag.Base.Dict.{string_eq, Dict}
use sentinal_rag.Base.Text.{Text, codes, text_eq}
use sentinal_rag.Rag.Grounding.{
  Floats, NliVerdict, neutral, FlagValue, boolean, number, bool_flag, run,
}
use sentinal_rag.Rag.Grounding.Laws.{IsRisky, IsSampled, IsJudgeable, run-judges}
use sentinal_rag.Tests.Instances.{ltb_asym}

ltb_irrefl : (a : ℕ) → ltb a a ≡ false
ltb_irrefl a = ground arith

abbrev percent : Floats
percent = record {
  F = ℕ;
  zero_f = 0;
  one_f = 100;
  smaller = ltb;
  of_bool = λ b. if b then 100 else 0;
  truth = λ n. ltb 0 n;
  zero_smaller_one = refl;
  smaller_irrefl = ltb_irrefl;
  smaller_asym = ltb_asym;
}

-- A typo on the flag server: ten thousand percent.
abbrev typo : Dict String (FlagValue percent)
typo =
    ("hallucination.judge.enabled", boolean true)
    ∷ ("hallucination.judge.sample_rate", number 10000)
    ∷ []

abbrev no_overlap : Text → Text → Option ℕ
no_overlap answer context = none

abbrev always_neutral : Text → Text → NliVerdict
always_neutral answer context = neutral

abbrev approves : Text → Text → Text → Text × Text
approves query context answer = (codes "supported", codes "reason")

run-judges_example :
    (is_some
        (run percent no_overlap always_neutral approves typo 50
          (codes "q")
          (codes "a")
          (codes "c")
          (record {
            grounding_score = none;
            nli_verdict = none;
            judge_verdict = none;
            judge_reasoning = none;
          })).judge_verdict
      ≡ true)
    ↔ (IsJudgeable percent no_overlap always_neutral approves (codes "a") (codes "c")
        × (bool_flag percent typo "hallucination.judge.enabled" false ≡ true)
        × (IsRisky percent no_overlap always_neutral approves typo (codes "a") (codes "c")
            ⊎ IsSampled percent no_overlap always_neutral approves typo 50))
run-judges_example =
    run-judges percent no_overlap always_neutral approves typo 50 (codes "q") (codes "a")
      (codes "c")
