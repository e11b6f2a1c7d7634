-- ===== src/Base/Each.antt =====
-- Comprehensions whose body may raise.
use mathlib.Core.Path.{◌≡◌, refl}
use mathlib.Core.List.{List, [], ◌∷◌, map}
use mathlib.Core.Option.{Option, some}
use sentinal_rag.Base.Tests.{then_some}
use sentinal_rag.Base.Lists.{All}

-- `[f(x) for x in xs]` where `f` may raise
unfoldable pub each {ℓ κ} : {A : Type ℓ} {B : Type κ} → (A → Option B) → List A → Option (List B)
each f [] = some []
each f (x ∷ xs) = then_some (f x) (λ y. then_some (each f xs) (λ ys. some (y ∷ ys)))

module _ {A B : Type 0} (f : A → Option B) (g : A → B) (P : A → Type 0)
    (h : (a : A) → P a → f a ≡ some (g a)) where
  pub each-map : (xs : List A) → All P xs → each f xs ≡ some (map g xs)
  unfolding each
  each-map [] p = refl
  each-map (x ∷ xs) p = rw (h x p.0, each-map xs p.1) refl

module _ {A B : Type 0} (f : B → Option A) (g : A → B) (P : A → Type 0)
    (h : (a : A) → P a → f (g a) ≡ some a) where
  pub each-back : (xs : List A) → All P xs → each f (map g xs) ≡ some xs
  unfolding each
  each-back [] p = refl
  each-back (x ∷ xs) p = rw (h x p.0, each-back xs p.1) refl

module _ {A B : Type 0} (f : B → Option B) (g : A → B) (P : A → Type 0)
    (h : (a : A) → P a → f (g a) ≡ some (g a)) where
  pub each-kept : (xs : List A) → All P xs → each f (map g xs) ≡ some (map g xs)
  unfolding each
  each-kept [] p = refl
  each-kept (x ∷ xs) p = rw (h x p.0, each-kept xs p.1) refl
