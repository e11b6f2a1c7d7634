-- ===== src/Chunking/Sentences/Duplicate.antt =====
-- A run-on sentence behind short ones: the tail that is carried over is emitted a second time.
use sentinal_rag.Base.{
  lt→ltb, le→ltb, is_nil, keep_if, All, ℕ, ◌+◌, ◌≤◌, ◌<◌, ◌≡◌, refl, sym, ap, ap₂, ◌∙◌, ◌≢◌, false,
  not, List, [], ◌∷◌, ◌++◌, reverse, reverse-append, reverse-reverse, append_assoc, append-nil,
  arith,
}
use sentinal_rag.Base.Text.{Text, strip, join}
use sentinal_rag.Chunking.Sentences.Bounds.{sentence_cost, sentence_cost-append}
use sentinal_rag.Chunking.{Tokenizer, count_tokens}
use sentinal_rag.Chunking.Sentences.{
  plain, split_sentences, overlap_tail, Split, flush, token_window_split, make_room, push,
  push_windows, add_sentence, add_sentences, empty_split, split_long_text,
}

zero_right : (n : ℕ) → n ≡ n + 0
zero_right n = omega arith

zero_left : (n : ℕ) → 0 + n ≡ n
zero_left n = omega arith

assoc_sum : (a b c : ℕ) → a + b + c ≡ a + (b + c)
assoc_sum a b c = omega arith

is_nil-of_ne : (xs : List Text) → xs ≢ [] → is_nil xs ≡ false
is_nil-of_ne [] h = absurd (h refl)
is_nil-of_ne (x ∷ xs) h = refl

module _ (k : Tokenizer) (target overlap : ℕ) where
  -- A group within the overlap is kept whole.
  overlap_tail-whole :
      (rev tail : List Text) (tokens : ℕ)
      → tokens + sentence_cost k rev ≤ overlap
      → overlap_tail k overlap rev tail tokens ≡ (reverse rev ++ tail, tokens + sentence_cost k rev)
  unfolding overlap_tail sentence_cost
  overlap_tail-whole [] tail tokens h = ap (λ (n : ℕ). (tail, n)) (omega arith)
  overlap_tail-whole (p ∷ rev) tail tokens h =
      let ih = overlap_tail-whole rev (p ∷ tail) (tokens + count_tokens k p) (omega arith) in
      rw (le→ltb overlap (tokens + count_tokens k p) (omega arith)) (
        ih
        ∙ ap₂ (λ (t : List Text) (n : ℕ). (t, n))
            (sym (append_assoc (reverse rev) (p ∷ []) tail)
              ∙ ap (λ t. t ++ tail) (sym (reverse-append (p ∷ []) rev)))
            (omega arith))

  sentence_cost-reverse : (xs : List Text) → sentence_cost k (reverse xs) ≡ sentence_cost k xs
  unfolding sentence_cost
  sentence_cost-reverse [] = refl
  sentence_cost-reverse (x ∷ xs) =
      ap (sentence_cost k) (reverse-append (x ∷ []) xs)
      ∙ sentence_cost-append k (reverse xs) (x ∷ [])
      ∙ omega (arith, sentence_cost-reverse xs)

  -- Short sentences are gathered without a flush.
  add_sentences-short :
      (s : Split k) (xs : List Text)
      → All (λ x. is_nil (strip x) ≡ false) xs
      → s.current_tokens + sentence_cost k xs ≤ target
      → add_sentences k target overlap s xs ≡ record s {
        current = s.current ++ xs;
        current_tokens = s.current_tokens + sentence_cost k xs;
      }
  unfolding add_sentences add_sentence make_room sentence_cost
  add_sentences-short s [] solid h = λ i. record s {
    current = sym (append-nil s.current) i;
    current_tokens = zero_right s.current_tokens i;
  }
  add_sentences-short s (x ∷ xs) solid h =
      let cost = count_tokens k x in
      rw
        (
          solid.0,
          le→ltb target cost (omega arith),
          le→ltb target (s.current_tokens + cost) (omega arith),
        )
        (add_sentences-short (push k s x) xs solid.1 (omega arith) ∙ (λ i. record s {
          current = append_assoc s.current (x ∷ []) xs i;
          current_tokens = assoc_sum s.current_tokens cost (sentence_cost k xs) i;
        }))

  add_sentences-append :
      (s : Split k) (xs ys : List Text)
      → add_sentences k target overlap s (xs ++ ys)
        ≡ add_sentences k target overlap (add_sentences k target overlap s xs) ys
  unfolding add_sentences
  add_sentences-append s [] ys = refl
  add_sentences-append s (x ∷ xs) ys =
      add_sentences-append (add_sentence k target overlap s x) xs ys

  -- A flush of a group within the overlap keeps the whole group.
  flush-whole :
      (s : Split k)
      → is_nil s.current ≡ false
      → sentence_cost k s.current ≤ overlap
      → flush k overlap s ≡ record s {
        chunks = s.chunks ++ strip (join (32 ∷ []) s.current) ∷ [];
        current_tokens = sentence_cost k s.current;
      }
  unfolding flush
  flush-whole s full h =
      let same = sentence_cost-reverse s.current in
      rw (full, overlap_tail-whole (reverse s.current) [] 0 (omega (arith, same)))
        (λ i. record s {
          chunks = s.chunks ++ strip (join (32 ∷ []) s.current) ∷ [];
          current = (append-nil (reverse (reverse s.current)) ∙ reverse-reverse s.current) i;
          current_tokens = (zero_left (sentence_cost k (reverse s.current)) ∙ same) i;
        })

  -- A paragraph of short sentences `xs` that together fit the overlap, followed by a run-on
  -- sentence over the target, is split into the text of `xs`, the windows of the run-on, and the
  -- text of `xs` once more: the carried tail becomes a duplicate chunk behind the windows.
  pub split_long_text-repeats :
      (t long : Text) (xs : List Text)
      → split_sentences plain [] t ≡ xs ++ long ∷ []
      → xs ≢ []
      → All (λ x. is_nil (strip x) ≡ false) xs
      → is_nil (strip long) ≡ false
      → sentence_cost k xs ≤ overlap
      → overlap < target
      → target < count_tokens k long
      → let group = strip (join (32 ∷ []) xs) in
        split_long_text k target overlap t
        ≡ keep_if
            (λ c. not (is_nil c))
            (((group ∷ []) ++ token_window_split k target overlap long) ++ group ∷ [])
  unfolding split_long_text
  split_long_text-repeats t long xs e ne solid full fits small over =
      let group = strip (join (32 ∷ []) xs) in
      let nonempty = is_nil-of_ne xs ne in
      let g : Split k = record {
        chunks = [];
        current = xs;
        current_tokens = 0 + sentence_cost k xs;
      } in
      let f : Split k = record g { chunks = group ∷ []; current_tokens = sentence_cost k xs } in
      let f' : Split k = push_windows k target overlap f long in
      let gathered : add_sentences k target overlap (empty_split k) xs ≡ g =
        add_sentences-short (empty_split k) xs solid (omega arith) in
      let first : flush k overlap g ≡ f = flush-whole g nonempty fits in
      let windowed : add_sentence k target overlap g long ≡ f' =
        unfold add_sentence in rw (full, lt→ltb target _ over, first) refl in
      let last : (flush k overlap f').chunks ≡ f'.chunks ++ group ∷ [] =
        ap (λ (s : Split k). s.chunks) (flush-whole f' nonempty fits) in
      rw e (
        rw (add_sentences-append (empty_split k) xs (long ∷ []), gathered)
          (unfold add_sentences in rw (windowed, last) refl))
