-- ===== src/Base/Sort.antt =====
-- Python's `sorted(xs, key=…, reverse=True)`: a stable sort, largest first, by a strict order
-- `smaller` on the elements.
use Prim.Native.Nat.{ℕ, zero, suc}
use mathlib.Core.Path.{◌≡◌, refl, ap, ◌∙◌}
use mathlib.Core.Logic.{◌⊎◌, inl, inr}
use mathlib.Core.Bool.{Bool, true, false}
use mathlib.Core.List.{List, [], ◌∷◌, ◌++◌, map}
use sentinal_rag.Base.Tests.{if◌then◌else◌, Bool-cases}
use sentinal_rag.Base.Lists.{All, Any, length, take, All-imp, All-take, All-snoc}

module _ {ℓ} {A : Type ℓ} where
  -- Relation `R` holds between each element and every later one.
  abbrev pub AllPairs {κ} : (A → A → Type κ) → List A → Type (ℓ ⊔ κ)
  AllPairs R [] = Unit
  AllPairs R (x ∷ xs) = All (R x) xs × AllPairs R xs

  pub AllPairs-take {κ} :
      (R : A → A → Type κ) (n : ℕ) (xs : List A) → AllPairs R xs → AllPairs R (take n xs)
  AllPairs-take R zero xs h = tt
  AllPairs-take R (suc n) [] h = tt
  AllPairs-take R (suc n) (x ∷ xs) h = (All-take (R x) n xs h.0, AllPairs-take R n xs h.1)

module _ {ℓ} {A : Type ℓ} where
  pub AllPairs-snoc {κ} :
      (R : A → A → Type κ) (xs : List A) (y : A)
      → AllPairs R xs
      → All (λ x. R x y) xs
      → AllPairs R (xs ++ y ∷ [])
  AllPairs-snoc R [] y p h = (tt, tt)
  AllPairs-snoc R (x ∷ xs) y p h = (All-snoc (R x) xs y p.0 h.0, AllPairs-snoc R xs y p.1 h.1)

  -- A function that keeps the predicate, or the relation, of the elements.
  pub All-mapped {κ} :
      (P : A → Type κ) (f : A → A) (xs : List A)
      → ((x : A) → P x → P (f x))
      → All P xs
      → All P (map f xs)
  All-mapped P f [] k h = tt
  All-mapped P f (x ∷ xs) k h = (k x h.0, All-mapped P f xs k h.1)

  pub AllPairs-mapped {κ} :
      (R : A → A → Type κ) (f : A → A) (xs : List A)
      → ((x y : A) → R x y → R (f x) (f y))
      → AllPairs R xs
      → AllPairs R (map f xs)
  AllPairs-mapped R f [] k h = tt
  AllPairs-mapped R f (x ∷ xs) k h = (others xs h.0, AllPairs-mapped R f xs k h.1)
    where
      others : (ys : List A) → All (R x) ys → All (R (f x)) (map f ys)
      others [] g = tt
      others (y ∷ ys) g = (k x y g.0, others ys g.1)

module _ {ℓ} {A : Type ℓ} (smaller : A → A → Bool) where
  unfoldable pub place : A → List A → List A
  place x [] = x ∷ []
  place x (y ∷ ys) = let rest = place x ys in if smaller x y then y ∷ rest else x ∷ y ∷ ys

  unfoldable pub sort_desc : List A → List A
  unfolding place
  sort_desc [] = []
  sort_desc (x ∷ xs) = place x (sort_desc xs)

  place-All {κ} : (P : A → Type κ) (x : A) (ys : List A) → P x → All P ys → All P (place x ys)
  unfolding place
  place-All P x [] p h = (p, tt)
  place-All P x (y ∷ ys) p h = elim (Bool-cases (smaller x y)) [
    | inl e ↦ rw e (h.0, place-All P x ys p h.1)
    | inr e ↦ rw e (p, h)
  ]

  pub sort_desc-All {κ} : (P : A → Type κ) (xs : List A) → All P xs → All P (sort_desc xs)
  unfolding sort_desc
  sort_desc-All P [] h = tt
  sort_desc-All P (x ∷ xs) h = place-All P x (sort_desc xs) h.0 (sort_desc-All P xs h.1)

  place-Any : (P : A → Type 0) (x : A) (ys : List A) → P x ⊎ Any P ys → Any P (place x ys)
  unfolding place
  place-Any P x [] m = m
  place-Any P x (y ∷ ys) m = elim (Bool-cases (smaller x y)) [
    | inl e ↦ rw e (elim m [
      | inl here ↦ inr (place-Any P x ys (inl here))
      | inr (inl next) ↦ inl next
      | inr (inr later) ↦ inr (place-Any P x ys (inr later))
    ])
    | inr e ↦ rw e m
  ]

  pub sort_desc-Any : (P : A → Type 0) (xs : List A) → Any P xs → Any P (sort_desc xs)
  unfolding sort_desc
  sort_desc-Any P [] absent = absent
  sort_desc-Any P (x ∷ xs) (inl here) = place-Any P x (sort_desc xs) (inl here)
  sort_desc-Any P (x ∷ xs) (inr later) =
      place-Any P x (sort_desc xs) (inr (sort_desc-Any P xs later))

  length-place : (x : A) (ys : List A) → length (place x ys) ≡ suc (length ys)
  unfolding place
  length-place x [] = refl
  length-place x (y ∷ ys) = elim (Bool-cases (smaller x y)) [
    | inl e ↦ rw e (ap suc (length-place x ys))
    | inr e ↦ rw e refl
  ]

  pub length-sort_desc : (xs : List A) → length (sort_desc xs) ≡ length xs
  unfolding sort_desc
  length-sort_desc [] = refl
  length-sort_desc (x ∷ xs) = length-place x (sort_desc xs) ∙ ap suc (length-sort_desc xs)

  -- A symmetric relation between all pairs survives the sort.
  place-AllPairs {κ} :
      (R : A → A → Type κ) (x : A) (ys : List A)
      → ((a b : A) → R a b → R b a)
      → All (R x) ys
      → AllPairs R ys
      → AllPairs R (place x ys)
  unfolding place
  place-AllPairs R x [] sy h p = (tt, tt)
  place-AllPairs R x (y ∷ ys) sy h p = elim (Bool-cases (smaller x y)) [
    | inl e ↦ rw e (place-All (R y) x ys (sy x y h.0) p.0, place-AllPairs R x ys sy h.1 p.1)
    | inr e ↦ rw e (h, p)
  ]

  pub sort_desc-AllPairs {κ} :
      (R : A → A → Type κ) (xs : List A)
      → ((a b : A) → R a b → R b a)
      → AllPairs R xs
      → AllPairs R (sort_desc xs)
  unfolding sort_desc
  sort_desc-AllPairs R [] sy p = tt
  sort_desc-AllPairs R (x ∷ xs) sy p =
      place-AllPairs R x (sort_desc xs) sy (sort_desc-All (R x) xs p.0)
        (sort_desc-AllPairs R xs sy p.1)

  -- In the result no element is smaller than a later one.
  abbrev pub Sorted : List A → Type ℓ
  Sorted = AllPairs (λ a b. smaller a b ≡ false)

  module _ (asym : (a b : A) → smaller a b ≡ true → smaller b a ≡ false)
      (trans : (a b c : A) → smaller a b ≡ false → smaller b c ≡ false → smaller a c ≡ false) where
    place-Sorted : (x : A) (ys : List A) → Sorted ys → Sorted (place x ys)
    unfolding place
    place-Sorted x [] p = (tt, tt)
    place-Sorted x (y ∷ ys) p = elim (Bool-cases (smaller x y)) [
      | inl e ↦
          rw e (place-All (λ b. smaller y b ≡ false) x ys (asym x y e) p.0, place-Sorted x ys p.1)
      | inr e ↦ rw e ((e, All-imp ys (λ b h. trans x y b e h) p.0), p)
    ]

    pub sort_desc-Sorted : (xs : List A) → Sorted (sort_desc xs)
    unfolding sort_desc
    sort_desc-Sorted [] = tt
    sort_desc-Sorted (x ∷ xs) = place-Sorted x (sort_desc xs) (sort_desc-Sorted xs)
