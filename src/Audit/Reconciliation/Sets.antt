-- ===== src/Audit/Reconciliation/Sets.antt =====
-- The sorted set differences of the reconciliation.
use sentinal_rag.Base.{
  ltb, ◌==◌, ==_iff, Bool-cases, keep_if, All, All-imp, ℕ, ◌<◌, ◌≡◌, refl, ap, ◌∙◌, inl, inr, Bool,
  ◌&&◌, ◌||◌, not, List, [], ◌∷◌, arith,
}
use sentinal_rag.Base.Sort.{AllPairs}
use sentinal_rag.Audit.Reconciliation.{elem, place_once, sorted_set, diff_event_sets}

pub elem-cons : (i x : ℕ) (xs : List ℕ) → elem i (x ∷ xs) ≡ ((x == i) || elem i xs)
unfolding elem
elem-cons i x xs = refl

elem-place_once : (j i : ℕ) (xs : List ℕ) → elem j (place_once i xs) ≡ ((i == j) || elem j xs)
unfolding elem place_once
elem-place_once j i [] = refl
elem-place_once j i (x ∷ xs) = ground (arith, elem-place_once j i xs)

pub elem-sorted_set : (j : ℕ) (xs : List ℕ) → elem j (sorted_set xs) ≡ elem j xs
unfolding elem sorted_set
elem-sorted_set j [] = refl
elem-sorted_set j (x ∷ xs) =
    elem-place_once j x (sorted_set xs) ∙ ap (λ b. (x == j) || b) (elem-sorted_set j xs)

pub elem-keep_if : (p : ℕ → Bool) (j : ℕ) (xs : List ℕ) → elem j (keep_if p xs) ≡ (elem j xs && p j)
unfolding elem
elem-keep_if p j [] = refl
elem-keep_if p j (x ∷ xs) = ground (arith, elem-keep_if p j xs, ap p ((==_iff x j).0 _))

-- Strictly ascending.
abbrev pub Ascending : List ℕ → Type 0
Ascending = AllPairs (λ a b. a < b)

All-place_once :
    (n i : ℕ) (xs : List ℕ) → n < i → All (λ b. n < b) xs → All (λ b. n < b) (place_once i xs)
unfolding place_once
All-place_once n i [] h a = (h, tt)
All-place_once n i (x ∷ xs) h a = elim (Bool-cases (ltb i x)) [
  | inl low ↦ rw low (h, a)
  | inr high ↦ elim (Bool-cases (i == x)) [
    | inl same ↦ rw (high, same) a
    | inr other ↦ rw (high, other) (a.0, All-place_once n i xs h a.1)
  ]
]

place_once-Ascending : (i : ℕ) (xs : List ℕ) → Ascending xs → Ascending (place_once i xs)
unfolding place_once
place_once-Ascending i [] h = (tt, tt)
place_once-Ascending i (x ∷ xs) h = elim (Bool-cases (ltb i x)) [
  | inl low ↦ rw low ((ground arith, All-imp xs (λ b le. ground arith) h.0), h)
  | inr high ↦ elim (Bool-cases (i == x)) [
    | inl same ↦ rw (high, same) h
    | inr other ↦
        rw (high, other) (All-place_once x i xs (ground arith) h.0, place_once-Ascending i xs h.1)
  ]
]

pub sorted_set-Ascending : (xs : List ℕ) → Ascending (sorted_set xs)
unfolding sorted_set
sorted_set-Ascending [] = tt
sorted_set-Ascending (x ∷ xs) = place_once-Ascending x (sorted_set xs) (sorted_set-Ascending xs)

-- Each missing list is strictly ascending and holds exactly the ids that one store has and the
-- other has not.
pub diff_event_sets_lem :
    (pg s3 : List ℕ)
    → Ascending (diff_event_sets pg s3).missing_in_s3
      × Ascending (diff_event_sets pg s3).missing_in_pg
      × ((i : ℕ) → elem i (diff_event_sets pg s3).missing_in_s3 ≡ (elem i pg && not (elem i s3)))
      × ((i : ℕ) → elem i (diff_event_sets pg s3).missing_in_pg ≡ (elem i s3 && not (elem i pg)))
unfolding diff_event_sets
diff_event_sets_lem pg s3 =
    let only_pg = keep_if (λ i. not (elem i s3)) pg in
    let only_s3 = keep_if (λ i. not (elem i pg)) s3 in
    (
      sorted_set-Ascending only_pg,
      sorted_set-Ascending only_s3,
      (λ i. elem-sorted_set i only_pg ∙ elem-keep_if (λ i. not (elem i s3)) i pg),
      (λ i. elem-sorted_set i only_s3 ∙ elem-keep_if (λ i. not (elem i pg)) i s3),
    )
