-- ===== src/Chunking/SlidingWindow/Coverage.antt =====
-- The windows of the sliding-window chunker cover the token list, none is too long or empty.
use native.Mathlib.Nat.{suc-add}
use sentinal_rag.Chunking.Numbered.{IsNumbered, IsCounted}
use sentinal_rag.Chunking.SlidingWindow.{
  Config, collect, window_starts, number_windows, full_text, starts_of, chunk,
}
use sentinal_rag.Base.{
  leb, lt→ltb, Bool-cases, length, take, drop, is_nil, All, take_all, length-drop, take-append-drop,
  ℕ, zero, suc, ◌+◌, ◌-◌, ◌≤◌, ◌<◌, ◌≡◌, refl, ap, inl, inr, false, List, [], ◌∷◌, ◌++◌, map, arith,
}
use sentinal_rag.Chunking.{ParsedElement, Chunk, Tokenizer, slice}

-- The windows glued together again: all but the last give their first `step` tokens.
unfoldable pub stitch : ℕ → ℕ → List ℕ → List ℕ → List ℕ
stitch step target ids [] = []
stitch step target ids (s ∷ []) = slice s target ids
stitch step target ids (s ∷ t ∷ starts) =
    take step (slice s target ids) ++ stitch step target ids (t ∷ starts)

take-take {ℓ} : {A : Type ℓ} (n m : ℕ) (xs : List A) → n ≤ m → take n (take m xs) ≡ take n xs
take-take zero m xs h = refl
take-take (suc n) zero xs h = absurd (omega arith)
take-take (suc n) (suc m) [] h = refl
take-take (suc n) (suc m) (x ∷ xs) h = ap (λ t. x ∷ t) (take-take n m xs (omega arith))

drop-drop {ℓ} : {A : Type ℓ} (n m : ℕ) (xs : List A) → drop m (drop n xs) ≡ drop (n + m) xs
drop-drop zero m xs = ap (λ k. drop k xs) (omega arith)
drop-drop (suc n) zero [] = rw (suc-add n zero) refl
drop-drop (suc n) (suc m) [] = rw (suc-add n (suc m)) refl
drop-drop (suc n) m (x ∷ xs) = rw (suc-add n m) (drop-drop n m xs)

module _ (step target : ℕ) (ids : List ℕ) (pos : 0 < step) (fits : step ≤ target) where
  window_starts-cons :
      (fuel s : ℕ)
      → length ids - s ≤ fuel
      → s < length ids
      → (r : List ℕ) × (window_starts fuel (length ids) step target s ≡ s ∷ r)
  unfolding window_starts
  window_starts-cons zero s h lt = absurd (omega arith)
  window_starts-cons (suc fuel) s h lt = elim (Bool-cases (leb (length ids) (s + target))) [
    | inl done ↦ ([], rw (lt→ltb _ _ lt, done))
    | inr more ↦ (window_starts fuel (length ids) step target (s + step), rw (lt→ltb _ _ lt, more))
  ]

  stitch-window_starts :
      (fuel s : ℕ)
      → length ids - s ≤ fuel
      → s < length ids
      → stitch step target ids (window_starts fuel (length ids) step target s) ≡ drop s ids
  unfolding window_starts stitch
  stitch-window_starts zero s h lt = absurd (omega arith)
  stitch-window_starts (suc fuel) s h lt = elim (Bool-cases (leb (length ids) (s + target))) [
    | inl done ↦
        rw (lt→ltb _ _ lt, done) (take_all target (drop s ids) (ground (arith, length-drop s ids)))
    | inr more ↦
        let within : s + step < length ids = ground arith in
        let (r, e) = window_starts-cons fuel (s + step) (omega arith) within in
        let ih = stitch-window_starts fuel (s + step) (omega arith) within in
        rw (lt→ltb _ _ lt, more, e)
          (rw (rw e at ih) (
            rw (take-take step target (drop s ids) fits)
              (rw (← drop-drop s step ids) (take-append-drop step (drop s ids)))))
  ]

stitch-windows :
    (step target : ℕ) (ids : List ℕ)
    → 0 < step
    → step ≤ target
    → stitch step target ids (window_starts (length ids) (length ids) step target 0) ≡ ids
unfolding stitch window_starts
stitch-windows step target [] pos fits = refl
stitch-windows step target (x ∷ ids) pos fits =
    stitch-window_starts step target (x ∷ ids) pos fits (suc (length ids)) 0 (omega arith)
      (omega arith)

window_starts_below :
    (fuel n step target s : ℕ) → All (λ t. t < n) (window_starts fuel n step target s)
unfolding window_starts
window_starts_below zero n step target s = tt
window_starts_below (suc fuel) n step target s =
    ground (arith, window_starts_below fuel n step target (s + step))

module _ (k : Tokenizer) (c : Config) where
  number_windows-IsNumbered :
      (ids : List ℕ) (anchors : List (ℕ × ParsedElement)) (i : ℕ) (starts : List ℕ)
      → IsNumbered i (number_windows k c ids anchors i starts)
        × All (IsCounted k) (number_windows k c ids anchors i starts)
  unfolding number_windows
  number_windows-IsNumbered ids anchors i [] = (tt, tt)
  number_windows-IsNumbered ids anchors i (s ∷ starts) =
      let (numbered, counted) = number_windows-IsNumbered ids anchors (i + 1) starts in
      ((refl, numbered), (refl, counted))

  number_windows-text :
      (ids : List ℕ) (anchors : List (ℕ × ParsedElement)) (i : ℕ) (starts : List ℕ)
      → map (λ (x : Chunk). x.text) (number_windows k c ids anchors i starts)
        ≡ map (λ s. k.decode (slice s c.target_tokens ids)) starts
  unfolding number_windows
  number_windows-text ids anchors i [] = refl
  number_windows-text ids anchors i (s ∷ starts) =
      ap (λ t. k.decode (slice s c.target_tokens ids) ∷ t)
        (number_windows-text ids anchors (i + 1) starts)

  -- For an overlap below the target and a text that is not empty: the chunks are numbered from
  -- 0 and counted, their texts are the decoded windows in order, every window starts inside the
  -- token list, and the windows, all but the last cut to the step, are the token list.
  pub chunk-covers :
      (elements : List ParsedElement)
      → c.overlap_tokens < c.target_tokens
      → is_nil (full_text k c elements) ≡ false
      → let ids = k.encode (full_text k c elements) in
        (IsNumbered 0 (chunk k c elements))
        × All (IsCounted k) (chunk k c elements)
        × (map (λ (x : Chunk). x.text) (chunk k c elements)
            ≡ map (λ s. k.decode (slice s c.target_tokens ids)) (starts_of k c ids))
        × All (λ s. s < length ids) (starts_of k c ids)
        × (stitch (c.target_tokens - c.overlap_tokens) c.target_tokens ids (starts_of k c ids)
            ≡ ids)
  unfolding chunk
  chunk-covers elements h full =
      let ids = k.encode (full_text k c elements) in
      let anchors = (collect elements 0).0 in
      let (numbered, counted) = number_windows-IsNumbered ids anchors 0 (starts_of k c ids) in
      (
        rw full numbered,
        rw full counted,
        rw full (number_windows-text ids anchors 0 (starts_of k c ids)),
        window_starts_below (length ids) (length ids) (c.target_tokens - c.overlap_tokens)
            c.target_tokens 0,
        stitch-windows (c.target_tokens - c.overlap_tokens) c.target_tokens ids (omega arith)
            (omega arith),
      )
