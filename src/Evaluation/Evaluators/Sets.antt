-- ===== src/Evaluation/Evaluators/Sets.antt =====
-- The size of an intersection of sets of texts.
use sentinal_rag.Base.{
  if◌then◌else◌, Bool-cases, length, is_nil, keep_if, All, suc, ◌≤◌, ◌≡◌, refl, sym, ap, ◌∙◌, inl,
  inr, Bool, true, false, List, [], ◌∷◌, arith,
}
use sentinal_rag.Base.Sort.{AllPairs}
use sentinal_rag.Base.Text.{Text, text_beq, text_beq_iff}
use sentinal_rag.Evaluation.Evaluators.{has, as_set, both}

abbrev pub IsDistinct : List Text → Type 0
IsDistinct = AllPairs (λ a b. text_beq a b ≡ false)

abbrev IsIn : List Text → Text → Type 0
IsIn ys x = has ys x ≡ true

abbrev remove : Text → List Text → List Text
remove x [] = []
remove x (y ∷ ys) = let rest = remove x ys in if text_beq x y then ys else y ∷ rest

length-remove : (x : Text) (ys : List Text) → IsIn ys x → suc (length (remove x ys)) ≡ length ys
length-remove x [] h = cc h
length-remove x (y ∷ ys) h = elim (Bool-cases (text_beq x y)) [
  | inl e ↦ rw e refl
  | inr e ↦ let h' : IsIn ys x = rw e at h in rw e (ap suc (length-remove x ys h'))
]

remove-keeps :
    (x z : Text) (ys : List Text) → text_beq x z ≡ false → IsIn ys z → IsIn (remove x ys) z
remove-keeps x z [] n h = h
remove-keeps x z (y ∷ ys) n h = elim (Bool-cases (text_beq x y)) [
  | inl e ↦
      let other : text_beq z y ≡ false = elim (Bool-cases (text_beq z y)) [
        | inl f ↦
            cc (n, (text_beq_iff x z).1 ((text_beq_iff x y).0 e ∙ sym ((text_beq_iff z y).0 f)))
        | inr f ↦ f
      ] in
      let h' : IsIn ys z = rw other at h in rw e h'
  | inr e ↦ elim (Bool-cases (text_beq z y)) [
    | inl f ↦ rw (e, f) refl
    | inr f ↦ let h' : IsIn ys z = rw f at h in rw (e, f) (remove-keeps x z ys n h')
  ]
]

All-remove :
    (x : Text) (xs ys : List Text)
    → All (λ z. text_beq x z ≡ false) xs
    → All (IsIn ys) xs
    → All (IsIn (remove x ys)) xs
All-remove x [] ys d m = tt
All-remove x (z ∷ xs) ys d m = (remove-keeps x z ys d.0 m.0, All-remove x xs ys d.1 m.1)

-- Distinct members of a list are no more than the list is long.
pub length-IsDistinct :
    (xs ys : List Text) → IsDistinct xs → All (IsIn ys) xs → length xs ≤ length ys
length-IsDistinct [] ys d m = omega arith
length-IsDistinct (x ∷ xs) ys d m = omega (
  arith,
  length-remove x ys m.0,
  length-IsDistinct xs (remove x ys) d.1 (All-remove x xs ys d.0 m.1),
)

not_in-All : (x : Text) (ys : List Text) → has ys x ≡ false → All (λ z. text_beq x z ≡ false) ys
not_in-All x [] h = tt
not_in-All x (y ∷ ys) h = elim (Bool-cases (text_beq x y)) [
  | inl e ↦ let h' = rw e at h in cc h'
  | inr e ↦ let h' : has ys x ≡ false = rw e at h in (e, not_in-All x ys h')
]

pub as_set-IsDistinct : (xs : List Text) → IsDistinct (as_set xs)
unfolding as_set
as_set-IsDistinct [] = tt
as_set-IsDistinct (x ∷ xs) = elim (Bool-cases (has (as_set xs) x)) [
  | inl e ↦ rw e (as_set-IsDistinct xs)
  | inr e ↦ rw e (not_in-All x (as_set xs) e, as_set-IsDistinct xs)
]

All-keep_if {κ} :
    (P : Text → Type κ) (p : Text → Bool) (xs : List Text) → All P xs → All P (keep_if p xs)
All-keep_if P p [] h = tt
All-keep_if P p (x ∷ xs) h = elim (Bool-cases (p x)) [
  | inl e ↦ rw (All, e) (h.0, All-keep_if P p xs h.1)
  | inr e ↦ rw (All, e) (All-keep_if P p xs h.1)
]

keep_if-IsDistinct : (p : Text → Bool) (xs : List Text) → IsDistinct xs → IsDistinct (keep_if p xs)
keep_if-IsDistinct p [] h = tt
keep_if-IsDistinct p (x ∷ xs) h = elim (Bool-cases (p x)) [
  | inl e ↦ rw (AllPairs, e) (All-keep_if _ p xs h.0, keep_if-IsDistinct p xs h.1)
  | inr e ↦ rw (AllPairs, e) (keep_if-IsDistinct p xs h.1)
]

both-IsIn : (a b : List Text) → All (IsIn b) (both a b)
both-IsIn [] b = tt
both-IsIn (x ∷ a) b = elim (Bool-cases (has b x)) [
  | inl e ↦ rw (All, e) (e, both-IsIn a b)
  | inr e ↦ rw (All, e) (both-IsIn a b)
]

-- The intersection is no larger than its right side.
pub length-both : (a b : List Text) → IsDistinct a → length (both a b) ≤ length b
length-both a b d = length-IsDistinct (both a b) b (keep_if-IsDistinct (has b) a d) (both-IsIn a b)

has-nonempty : (xs : List Text) (x : Text) → has xs x ≡ true → is_nil xs ≡ false
has-nonempty [] x h = cc h
has-nonempty (y ∷ xs) x h = refl

pub as_set-nonempty : (xs : List Text) → is_nil xs ≡ false → is_nil (as_set xs) ≡ false
unfolding as_set
as_set-nonempty [] h = cc h
as_set-nonempty (x ∷ xs) h = elim (Bool-cases (has (as_set xs) x)) [
  | inl e ↦ rw e (has-nonempty (as_set xs) x e)
  | inr e ↦ rw e refl
]
