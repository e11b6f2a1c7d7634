-- ===== src/Idempotency/Keys.antt =====
-- Cache keys of different requests never collide.
use sentinal_rag.Base.{length, length-append, ℕ, ◌≡◌, refl, ap, List, [], ◌∷◌, ◌++◌, arith}
use sentinal_rag.Base.Text.{Text, codes}
use sentinal_rag.Idempotency.{cache_key}

-- Lists that start alike and whose first parts are of one length agree part by part.
append-injective {ℓ} :
    {A : Type ℓ} (xs ys us vs : List A)
    → length xs ≡ length us
    → xs ++ ys ≡ us ++ vs
    → (xs ≡ us) × (ys ≡ vs)
append-injective [] ys [] vs n h = (refl, h)
append-injective [] ys (u ∷ us) vs n h = absurd (omega arith)
append-injective (x ∷ xs) ys [] vs n h = absurd (omega arith)
append-injective (x ∷ xs) ys (u ∷ us) vs n h =
    let (same, rest) = append-injective xs ys us vs (omega arith) (cc h) in (cc, rest)

-- The part of a key behind its tenant.
tail_injective :
    (k b k' b' : Text)
    → length b ≡ length b'
    → k ++ (codes ":" ++ b) ≡ k' ++ (codes ":" ++ b')
    → (k ≡ k') × (b ≡ b')
tail_injective k b k' b' nb h =
    let n : length k ≡ length k' = omega (
      arith,
      nb,
      ap (length {A = ℕ}) h,
      length-append k (codes ":" ++ b),
      length-append k' (codes ":" ++ b'),
    ) in
    let (same, rest) = append-injective k (codes ":" ++ b) k' (codes ":" ++ b') n h in
    (same, (append-injective (codes ":") b (codes ":") b' refl rest).1)

-- Two cache keys are the same only for the same tenant, the same caller's key and the same body
-- hash, where tenant texts have one length and body hashes have one length.
pub cache_key-injective :
    (t k b t' k' b' : Text)
    → length t ≡ length t'
    → length b ≡ length b'
    → cache_key t k b ≡ cache_key t' k' b'
    → (t ≡ t') × (k ≡ k') × (b ≡ b')
unfolding cache_key
cache_key-injective t k b t' k' b' nt nb h =
    let lit = codes "idempotency:" in
    let rest = (append-injective lit _ lit _ refl h).1 in
    let (same, tail) = append-injective t _ t' _ nt rest in
    let (keys, hashes) =
      tail_injective k b k' b' nb (append-injective (codes ":") _ (codes ":") _ refl tail).1 in
    (same, keys, hashes)
