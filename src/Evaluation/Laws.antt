-- ===== src/Evaluation/Laws.antt =====
-- What a run comes to, given that none of its calls of `score_case` gets through.
use sentinal_rag.Base.{◌==◌, if◌then◌else◌, length, any, ℕ, suc, ◌≡◌, some, List, [], ◌∷◌}
use sentinal_rag.Base.Dict.{nat_eq, lookup, insert}
use sentinal_rag.Evaluation.{not_scored, Tables, Progress, final_status}

-- The counts and the rows after one case, and after all of them, when failures are recorded.
abbrev after_failure : ℕ → Progress → Progress
after_failure i p = record p {
  cases_failed = suc p.cases_failed;
  tables = record p.tables { rows = insert i not_scored p.tables.rows };
}

unfoldable after_cases : List ℕ → Progress → Progress
after_cases [] p = p
after_cases (i ∷ is) p = after_cases is (after_failure i p)

-- What a run accounts for: no case is completed and all are failed; the status is "completed" only
-- for an empty list of cases and "failed" otherwise; every case `j` of the list has the row of a
-- failure, in place of what an earlier run left, and any other the row that was there.
abbrev pub IsAccounted : List ℕ → Tables → ℕ → Progress × Tables → Type 0
IsAccounted cases t j r =
    (r.0.cases_completed ≡ 0)
    × (r.0.cases_failed ≡ length cases)
    × (r.1.status ≡ some (final_status (length cases)))
    × (lookup j r.1.rows ≡ (if any (λ i. i == j) cases then some not_scored else lookup j t.rows))
