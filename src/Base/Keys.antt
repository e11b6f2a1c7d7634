-- ===== src/Base/Keys.antt =====
-- The keys of a dict: that they stay distinct, and what holds of every entry.
use mathlib.Core.Path.{◌≡◌, sym, subst, ◌∙◌}
use mathlib.Core.Logic.{◌≢◌, inl, inr}
use mathlib.Core.Bool.{false}
use mathlib.Core.List.{List, [], ◌∷◌}
use sentinal_rag.Base.Tests.{Bool-cases}
use sentinal_rag.Base.Lists.{All}
use sentinal_rag.Base.Dict.{Eq, ◌===◌, Dict, insert}
use sentinal_rag.Base.Sort.{AllPairs}

module _ {ℓ κ} {K : Type ℓ} {V : Type κ} where
  -- `d.values()`
  abbrev pub values : Dict K V → List V
  values [] = []
  values ((k, v) ∷ d) = v ∷ values d

  abbrev pub DistinctKeys : Dict K V → Type (ℓ ⊔ κ)
  DistinctKeys = AllPairs (λ p q. p.0 ≢ q.0)

  pub All-values {ι} : (P : V → Type ι) (d : Dict K V) → All (λ p. P p.1) d → All P (values d)
  All-values P [] h = tt
  All-values P ((k, v) ∷ d) h = (h.0, All-values P d h.1)

  -- Values that carry their keys are pairwise distinct in them.
  pub AllPairs-values :
      (key : V → K) (d : Dict K V)
      → All (λ p. key p.1 ≡ p.0) d
      → DistinctKeys d
      → AllPairs (λ v w. key v ≢ key w) (values d)
  AllPairs-values key [] k h = tt
  AllPairs-values key ((i, v) ∷ d) k h =
      (All-values (λ w. key v ≢ key w) d (others d k.1 h.0), AllPairs-values key d k.1 h.1)
    where
      others :
          (rest : Dict K V)
          → All (λ p. key p.1 ≡ p.0) rest
          → All (λ q. i ≢ q.0) rest
          → All (λ q. key v ≢ key q.1) rest
      others [] a b = tt
      others ((j, w) ∷ rest) a b = ((λ same. b.0 (sym k.0 ∙ same ∙ a.0)), others rest a.1 b.1)

module _ {ℓ κ} {K : Type ℓ} {V : Type κ} ⦃e : Eq K⦄ where
  pub All-insert {ι} :
      (P : K × V → Type ι) (k : K) (v : V) (d : Dict K V)
      → P (k, v)
      → All P d
      → All P (insert k v d)
  unfolding insert
  All-insert P k v [] p h = (p, tt)
  All-insert P k v ((j, w) ∷ d) p h = elim (Bool-cases (j === k)) [
    | inl same ↦ rw same (subst (λ x. P (x, v)) (sym ((e.beq_iff j k).0 same)) p, h.1)
    | inr other ↦ rw other (h.0, All-insert P k v d p h.1)
  ]

  pub insert-DistinctKeys :
      (k : K) (v : V) (d : Dict K V) → DistinctKeys d → DistinctKeys (insert k v d)
  unfolding insert
  insert-DistinctKeys k v [] h = (tt, tt)
  insert-DistinctKeys k v ((j, w) ∷ d) h = elim (Bool-cases (j === k)) [
    | inl same ↦ rw same h
    | inr other ↦
        rw other (All-insert (λ q. j ≢ q.0) k v d (differ other) h.0, insert-DistinctKeys k v d h.1)
  ]
    where
      differ : (j === k) ≡ false → j ≢ k
      differ f same = cc (f, (e.beq_iff j k).1 same)
