-- ===== src/Tests/EvaluationExamples.antt =====
-- The theorems on evaluation at concrete inputs.
use sentinal_rag.Base.{true, none, some, List, [], ◌∷◌}
use sentinal_rag.Base.Dict.{nat_eq}
use sentinal_rag.Base.Text.{Text, codes}
use sentinal_rag.Evaluation.{queued, ScoreRow, Tables, Answers}
use sentinal_rag.Evaluation.Evaluators.{
  Case, Context, context_relevance, faithfulness, answer_correctness, citation_accuracy,
}
use sentinal_rag.Evaluation.Evaluators.Bounds.{IsScore, evaluators-IsScore}

abbrev answers : Answers
answers = record {
  started = true;
  case_ids = some (1 ∷ 2 ∷ []);
  recorded = λ i. true;
  finalized = true;
}

-- An earlier run has scored case 2.
abbrev queued_run : Tables
queued_run = record {
  status = some queued;
  rows = (2, ScoreRow.scored (some 5) none none none) ∷ [];
}

abbrev a_case : Case
a_case = record {
  input_query = codes "refund";
  expected_answer = some (codes "refund");
  expected_citation_chunk_ids = codes "c1" ∷ [];
  must_include = codes "days" ∷ [];
  must_not_include = [];
}

abbrev an_answer : Context
an_answer = record {
  answer_text = codes "refund in days";
  retrieved_chunks = (some (codes "c1"), codes "refund") ∷ [];
  cited_chunk_ids = codes "c1" ∷ codes "c2" ∷ [];
  cited_quoted_texts = codes "refund" ∷ [];
}

abbrev whole_text : Text → List Text
whole_text t = t ∷ []

abbrev same_case : Text → Text
same_case t = t

evaluators-IsScore_example :
    IsScore (context_relevance whole_text same_case a_case an_answer)
    × IsScore (faithfulness whole_text same_case an_answer)
    × IsScore (answer_correctness whole_text same_case a_case an_answer)
    × IsScore (citation_accuracy whole_text same_case a_case an_answer)
evaluators-IsScore_example = evaluators-IsScore whole_text same_case a_case an_answer
