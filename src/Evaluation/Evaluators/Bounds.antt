-- ===== src/Evaluation/Evaluators/Bounds.antt =====
-- Every score lies between 0 and 1.
use sentinal_rag.Base.{
  if◌then◌else◌, Bool-cases, length, is_nil, keep_if, All, All-append, ℕ, ◌*◌, ◌≤◌, ◌≡◌, refl, inl,
  inr, Bool, false, Option, none, some, List, [], ◌∷◌, ◌++◌, arith,
}
use sentinal_rag.Base.Text.{Text, text_eq, strip}
use native.Mathlib.Nat.{mul-le-mul_right, mul-le-mul}
use sentinal_rag.Evaluation.Evaluators.Sets.{as_set-IsDistinct, length-both, as_set-nonempty}
use sentinal_rag.Evaluation.Evaluators.{
  Frac, zero_frac, Case, Context, has, as_set, both, jaccard, sum, mean, tokens, overlaps,
  context_relevance, context_tokens, faithfulness, similarity, included, excluded,
  answer_correctness, half_sum, ids_of, citation_accuracy,
}

abbrev pub InUnit : Frac → Type 0
InUnit f = (f.num ≤ f.den) × (1 ≤ f.den)

-- A metric that does not apply, or a score between 0 and 1.
abbrev pub IsScore : Option Frac → Type 0
IsScore none = Unit
IsScore (some f) = InUnit f

length-keep_if {ℓ} : {A : Type ℓ} (p : A → Bool) (xs : List A) → length (keep_if p xs) ≤ length xs
length-keep_if p [] = omega arith
length-keep_if p (x ∷ xs) = elim (Bool-cases (p x)) [
  | inl e ↦ rw e (omega (arith, length-keep_if p xs))
  | inr e ↦ rw e (omega (arith, length-keep_if p xs))
]

is_nil-positive {ℓ} : {A : Type ℓ} (xs : List A) → is_nil xs ≡ false → 1 ≤ length xs
is_nil-positive [] h = cc h
is_nil-positive (x ∷ xs) h = omega arith

jaccard-InUnit : (a b : List Text) → InUnit (jaccard a b)
unfolding jaccard
jaccard-InUnit [] [] = (omega arith, omega arith)
jaccard-InUnit [] (y ∷ b) = (omega arith, omega arith)
jaccard-InUnit (x ∷ a) [] = (omega arith, omega arith)
jaccard-InUnit (x ∷ a) (y ∷ b) =
    let fits = length-keep_if (has (y ∷ b)) (x ∷ a) in (omega (arith, fits), omega arith)

positive : (a b : ℕ) → 1 ≤ a → 1 ≤ b → 1 ≤ a * b
positive a b h k = omega (arith, mul-le-mul h k)

sum-bound :
    (fs : List Frac)
    → All InUnit fs
    → ((sum fs).num ≤ (sum fs).den * length fs) × (1 ≤ (sum fs).den)
unfolding sum
sum-bound [] h = (omega arith, omega arith)
sum-bound (f ∷ fs) h =
    let (below, pos) = sum-bound fs h.1 in
    let g = sum fs in
    (
      omega (arith, mul-le-mul_right g.den h.0.0, mul-le-mul_right f.den below),
      positive f.den g.den h.0.1 pos,
    )

mean-InUnit : (fs : List Frac) → is_nil fs ≡ false → All InUnit fs → InUnit (mean fs)
unfolding mean
mean-InUnit fs n h =
    let (below, pos) = sum-bound fs h in
    (below, positive (sum fs).den (length fs) pos (is_nil-positive fs n))

module _ (findall : Text → List Text) (lower : Text → Text) where
  overlaps-InUnit :
      (q : List Text) (chunks : List (Option Text × Text))
      → All InUnit (overlaps findall lower q chunks)
  unfolding overlaps
  overlaps-InUnit q [] = tt
  overlaps-InUnit q ((id, content) ∷ chunks) = elim (Bool-cases (is_nil content)) [
    | inl e ↦ rw (All, e) (overlaps-InUnit q chunks)
    | inr e ↦
        rw (All, e) (jaccard-InUnit q (tokens findall lower content), overlaps-InUnit q chunks)
  ]

  zero-InUnit : InUnit zero_frac
  zero-InUnit = (omega arith, omega arith)

  context_relevance-IsScore :
      (case : Case) (c : Context) → IsScore (context_relevance findall lower case c)
  unfolding context_relevance
  context_relevance-IsScore case c =
      let q = tokens findall lower case.input_query in
      elim (Bool-cases (is_nil c.retrieved_chunks)) [
        | inl e ↦ rw (IsScore, e) zero-InUnit
        | inr e ↦ elim (Bool-cases (is_nil q)) [
          | inl f ↦ rw (IsScore, e, f) tt
          | inr f ↦ elim (Bool-cases (is_nil (overlaps findall lower q c.retrieved_chunks))) [
            | inl g ↦ rw (IsScore, e, f, g) zero-InUnit
            | inr g ↦
                rw (IsScore, e, f, g)
                  (mean-InUnit (overlaps findall lower q c.retrieved_chunks) g
                    (overlaps-InUnit q c.retrieved_chunks))
          ]
        ]
      ]

  faithfulness-IsScore : (c : Context) → IsScore (faithfulness findall lower c)
  unfolding faithfulness
  faithfulness-IsScore c =
      let q = tokens findall lower c.answer_text in
      let ctx = context_tokens findall lower c.retrieved_chunks in
      elim (Bool-cases (is_nil (strip c.answer_text))) [
        | inl e ↦ rw (IsScore, e) tt
        | inr e ↦ elim (Bool-cases (is_nil q)) [
          | inl f ↦ rw (IsScore, e, f) tt
          | inr f ↦ elim (Bool-cases (is_nil ctx)) [
            | inl g ↦ rw (IsScore, e, f, g) zero-InUnit
            | inr g ↦ rw (IsScore, e, f, g) (length-keep_if (has ctx) q, is_nil-positive q f)
          ]
        ]
      ]

  similarity-InUnit :
      (o : Option Text) (answer : Text) → All InUnit (similarity findall lower o answer)
  similarity-InUnit none answer = tt
  similarity-InUnit (some t) answer = elim (Bool-cases (is_nil t)) [
    | inl e ↦ rw (All, e) tt
    | inr e ↦
        rw (All, e) (jaccard-InUnit (tokens findall lower t) (tokens findall lower answer), tt)
  ]

  included-InUnit : (must : List Text) (a : Text) → All InUnit (included findall lower must a)
  included-InUnit must a = elim (Bool-cases (is_nil must)) [
    | inl e ↦ rw (All, e) tt
    | inr e ↦ rw (All, e) ((length-keep_if _ must, is_nil-positive must e), tt)
  ]

  excluded-InUnit : (must : List Text) (a : Text) → All InUnit (excluded findall lower must a)
  excluded-InUnit must a = elim (Bool-cases (is_nil must)) [
    | inl e ↦ rw (All, e) tt
    | inr e ↦ rw (All, e) ((omega arith, is_nil-positive must e), tt)
  ]

  answer_correctness-IsScore :
      (case : Case) (c : Context) → IsScore (answer_correctness findall lower case c)
  unfolding answer_correctness
  answer_correctness-IsScore case c =
      let answer = lower c.answer_text in
      let one = similarity findall lower case.expected_answer c.answer_text in
      let two = included findall lower case.must_include answer in
      let three = excluded findall lower case.must_not_include answer in
      let fs = one ++ two ++ three in
      let fine : All InUnit fs =
        All-append InUnit (one ++ two) three
          (All-append InUnit one two (similarity-InUnit case.expected_answer c.answer_text)
            (included-InUnit case.must_include answer))
          (excluded-InUnit case.must_not_include answer) in
      elim (Bool-cases (is_nil fs)) [
        | inl e ↦ rw (IsScore, e) tt
        | inr e ↦ rw (IsScore, e) (mean-InUnit fs e fine)
      ]

  half_sum-InUnit : (a b : Frac) → InUnit a → InUnit b → InUnit (half_sum findall lower a b)
  half_sum-InUnit a b h k = mean-InUnit (a ∷ b ∷ []) refl (h, (k, tt))

  precision-InUnit :
      (n : ℕ) (cited : List Text)
      → n ≤ length cited
      → InUnit (if is_nil cited then zero_frac else record { num = n; den = length cited })
  precision-InUnit n cited h = elim (Bool-cases (is_nil cited)) [
    | inl e ↦ rw (InUnit, e) zero-InUnit
    | inr e ↦ rw (InUnit, e) (h, is_nil-positive cited e)
  ]

  citation_accuracy-IsScore :
      (case : Case) (c : Context) → IsScore (citation_accuracy findall lower case c)
  unfolding citation_accuracy
  citation_accuracy-IsScore case c =
      let expected = as_set case.expected_citation_chunk_ids in
      let cited = as_set c.cited_chunk_ids in
      let valid = both cited (as_set (ids_of findall lower c.retrieved_chunks)) in
      let found = length (both expected valid) in
      let fits : found ≤ length cited = omega (
        arith,
        length-both expected valid (as_set-IsDistinct case.expected_citation_chunk_ids),
        length-keep_if (has (as_set (ids_of findall lower c.retrieved_chunks))) cited,
      ) in
      let recall : Frac = record { num = found; den = length expected } in
      let precision : Frac =
        if is_nil cited then zero_frac else record { num = found; den = length cited } in
      elim (Bool-cases (is_nil case.expected_citation_chunk_ids)) [
        | inl e ↦ rw (IsScore, e) tt
        | inr e ↦
            let score =
              half_sum-InUnit recall precision
                (
                  length-keep_if (has valid) expected,
                  is_nil-positive expected (as_set-nonempty case.expected_citation_chunk_ids e),
                )
                (precision-InUnit found cited fits) in
            elim (Bool-cases (is_nil c.cited_quoted_texts)) [
              | inl f ↦ rw (IsScore, e, f) score
              | inr f ↦ elim (Bool-cases (is_nil c.retrieved_chunks)) [
                | inl g ↦ rw (IsScore, e, f, g) score
                | inr g ↦
                    rw (IsScore, e, f, g)
                      (half_sum-InUnit _ _ score (
                        length-keep_if _ c.cited_quoted_texts,
                        is_nil-positive c.cited_quoted_texts f,
                      ))
              ]
            ]
      ]

  -- Each of the four evaluators gives no score or one between 0 and 1, for every case, answer,
  -- list of chunks and list of citations.
  pub evaluators-IsScore :
      (case : Case) (c : Context)
      → IsScore (context_relevance findall lower case c)
        × IsScore (faithfulness findall lower c)
        × IsScore (answer_correctness findall lower case c)
        × IsScore (citation_accuracy findall lower case c)
  evaluators-IsScore case c = (
    context_relevance-IsScore case c,
    faithfulness-IsScore c,
    answer_correctness-IsScore case c,
    citation_accuracy-IsScore case c,
  )
