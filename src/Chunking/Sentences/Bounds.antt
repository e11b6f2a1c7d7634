-- ===== src/Chunking/Sentences/Bounds.antt =====
-- How large the groups of sentences become.
use sentinal_rag.Base.{
  ltb, Bool-cases, is_nil, ℕ, ◌+◌, ◌≤◌, ◌≡◌, refl, ap, ◌∙◌, inl, inr, true, List, [], ◌∷◌, ◌++◌,
  reverse, arith,
}
use sentinal_rag.Base.Text.{Text, strip}
use sentinal_rag.Chunking.{Tokenizer, count_tokens}
use sentinal_rag.Chunking.Sentences.{
  overlap_tail, Split, flush, make_room, add_sentence, add_sentences,
}

unfoldable pub sentence_cost : Tokenizer → List Text → ℕ
sentence_cost k [] = 0
sentence_cost k (x ∷ xs) = count_tokens k x + sentence_cost k xs

pub sentence_cost-append :
    (k : Tokenizer) (xs ys : List Text)
    → sentence_cost k (xs ++ ys) ≡ sentence_cost k xs + sentence_cost k ys
unfolding sentence_cost
sentence_cost-append k [] ys = omega arith
sentence_cost-append k (x ∷ xs) ys = omega (arith, sentence_cost-append k xs ys)

module _ (k : Tokenizer) (target overlap : ℕ) where
  -- The kept tail counts what it says, and at most the overlap.
  overlap_tail_lem :
      (rev tail : List Text) (tokens : ℕ)
      → tokens ≤ overlap
      → tokens ≡ sentence_cost k tail
      → let (kept, count) = overlap_tail k overlap rev tail tokens in
        (count ≤ overlap) × (count ≡ sentence_cost k kept)
  unfolding overlap_tail sentence_cost
  overlap_tail_lem [] tail tokens h e = (h, e)
  overlap_tail_lem (p ∷ rev) tail tokens h e =
      ground (arith, overlap_tail_lem rev (p ∷ tail) (tokens + count_tokens k p))

  pub record IsValid (s : Split k) : Type 0 where
    pub counted : s.current_tokens ≡ sentence_cost k s.current
    pub within : s.current_tokens ≤ overlap + target

  flush_lem :
      (s : Split k)
      → IsValid s
      → ((flush k overlap s).current_tokens ≡ sentence_cost k (flush k overlap s).current)
        × ((flush k overlap s).current_tokens ≤ overlap)
  unfolding flush sentence_cost
  flush_lem s v = go s.current refl
    where
      tail :
          let (kept, count) = overlap_tail k overlap (reverse s.current) [] 0 in
          (count ≤ overlap) × (count ≡ sentence_cost k kept)
      tail = overlap_tail_lem (reverse s.current) [] 0 (omega arith) refl

      go :
          (b : List Text)
          → s.current ≡ b
          → ((flush k overlap s).current_tokens ≡ sentence_cost k (flush k overlap s).current)
            × ((flush k overlap s).current_tokens ≤ overlap)
      go [] e =
          let none_yet : s.current_tokens ≡ 0 = v.counted ∙ ap (sentence_cost k) e in
          ground (arith, ap (is_nil {A = Text}) e, v.counted, none_yet)
      go (x ∷ b) e = ground (arith, ap (is_nil {A = Text}) e, tail)

  is_nil_lem : (b : List Text) → is_nil b ≡ true → b ≡ []
  is_nil_lem [] h = refl
  is_nil_lem (x ∷ b) h = cc

  make_room_lem :
      (s : Split k) (stoks : ℕ)
      → IsValid s
      → stoks ≤ target
      → let f = make_room k target overlap s stoks in
        (f.current_tokens ≡ sentence_cost k f.current)
        × (f.current_tokens + stoks ≤ overlap + target)
  unfolding make_room sentence_cost
  make_room_lem s stoks v h = ground (
    arith,
    flush_lem s v,
    v.counted,
    (λ (e : is_nil s.current ≡ true). ap (sentence_cost k) (is_nil_lem s.current e)),
  )

  add_sentence-IsValid :
      (s : Split k) (x : Text) → IsValid s → IsValid (add_sentence k target overlap s x)
  unfolding add_sentence sentence_cost
  add_sentence-IsValid s x v = elim (Bool-cases (is_nil (strip x))) [
    | inl blank ↦ rw blank v
    | inr solid ↦ rw solid (elim (Bool-cases (ltb target (count_tokens k x))) [
      | inl long ↦
          let (counted, small) = flush_lem s v in
          rw long (record { counted = counted; within = omega arith })
      | inr short ↦
          let (counted, room) = make_room_lem s (count_tokens k x) v (ground arith) in
          rw short (record {
            counted = omega (
              arith,
              counted,
              sentence_cost-append k (make_room k target overlap s (count_tokens k x)).current
                  (x ∷ []),
            );
            within = room;
          })
    ])
  ]

  -- While an oversized paragraph is split, the group of sentences that is being filled never
  -- counts more than the target and the overlap together, and its running count is exact.
  pub add_sentences-IsValid :
      (s : Split k) (xs : List Text) → IsValid s → IsValid (add_sentences k target overlap s xs)
  unfolding add_sentences
  add_sentences-IsValid s [] v = v
  add_sentences-IsValid s (x ∷ xs) v =
      add_sentences-IsValid (add_sentence k target overlap s x) xs (add_sentence-IsValid s x v)
