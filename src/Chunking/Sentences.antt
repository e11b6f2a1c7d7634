-- ===== src/Chunking/Sentences.antt =====
-- `SemanticChunker._split_long_text` and `_token_window_split` of chunking/semantic.py: one
-- oversized paragraph is split at sentence ends, with a tail of sentences carried over.
pub mod Bounds
pub mod Duplicate
use sentinal_rag.Base.{
  ltb, ◌==◌, if◌then◌else◌, length, is_nil, keep_if, ℕ, ◌+◌, ◌-◌, max, Bool, false, ◌&&◌, ◌||◌, not,
  List, [], ◌∷◌, ◌++◌, map, reverse,
}
use sentinal_rag.Base.Text.{Text, is_space, strip, join}
use sentinal_rag.Chunking.{Tokenizer, count_tokens, slice}
use sentinal_rag.Chunking.SlidingWindow.{window_starts}

-- Where the scan of `re.split(r"(?<=[.!?])\s+", text)` stands: after a character that ends no
-- sentence, after one that does, or inside the space that is cut out.
pub data Mode : Type 0 where
  plain after_mark in_gap : Mode

abbrev pub is_mark : ℕ → Bool
is_mark c = (c == b'.') || (c == b'!') || (c == b'?')

abbrev pub is_cut : Mode → ℕ → Bool
is_cut after_mark c = is_space c
is_cut _ c = false

abbrev pub next_mode : Mode → ℕ → Mode
next_mode plain c = if is_mark c then after_mark else plain
next_mode after_mark c = if is_space c then in_gap else (if is_mark c then after_mark else plain)
next_mode in_gap c = if is_space c then in_gap else (if is_mark c then after_mark else plain)

abbrev pub next_piece : Mode → Text → ℕ → Text
next_piece plain piece c = piece ++ (c ∷ [])
next_piece after_mark piece c = if is_space c then [] else piece ++ (c ∷ [])
next_piece in_gap piece c = if is_space c then [] else piece ++ (c ∷ [])

unfoldable pub split_sentences : Mode → Text → Text → List Text
split_sentences mode piece [] = piece ∷ []
split_sentences mode piece (c ∷ t) =
    let rest = split_sentences (next_mode mode c) (next_piece mode piece c) t in
    if is_cut mode c then piece ∷ rest else rest

module _ (k : Tokenizer) where
  -- The tail that `_flush` keeps, walking back over the sentences (given latest first).
  unfoldable pub overlap_tail : ℕ → List Text → List Text → ℕ → List Text × ℕ
  overlap_tail overlap [] tail tail_tokens = (tail, tail_tokens)
  overlap_tail overlap (prev ∷ earlier) tail tail_tokens =
      let rest = overlap_tail overlap earlier (prev ∷ tail) (tail_tokens + count_tokens k prev) in
      if ltb overlap (tail_tokens + count_tokens k prev) then (tail, tail_tokens) else rest

  -- `chunks`, `current` and `current_tokens`
  pub record Split : Type 0 where
    pub chunks : List Text
    pub current : List Text
    pub current_tokens : ℕ

  -- `_flush`
  unfoldable pub flush : ℕ → Split → Split
  flush overlap s =
      if is_nil s.current
      then s
      else let (tail, tokens) = overlap_tail overlap (reverse s.current) [] 0 in
        record {
          chunks = s.chunks ++ (strip (join (32 ∷ []) s.current) ∷ []);
          current = tail;
          current_tokens = tokens;
        }

  -- `_token_window_split`
  unfoldable pub token_window_split : ℕ → ℕ → Text → List Text
  unfolding window_starts
  token_window_split target overlap t =
      let ids = k.encode t in
      map (λ start. k.decode (slice start target ids))
        (window_starts (length ids) (length ids) (max 1 (target - overlap)) target 0)

  -- `if current_tokens + stoks > self.target_tokens and current: _flush()`
  unfoldable pub make_room : ℕ → ℕ → Split → ℕ → Split
  make_room target overlap s stoks =
      if ltb target (s.current_tokens + stoks) && not (is_nil s.current) then flush overlap s else s

  abbrev pub push : Split → Text → Split
  push s sentence = record s {
    current = s.current ++ (sentence ∷ []);
    current_tokens = s.current_tokens + count_tokens k sentence;
  }

  -- A "sentence" over the target is split into token windows.
  abbrev pub push_windows : ℕ → ℕ → Split → Text → Split
  push_windows target overlap s sentence = record s {
    chunks = s.chunks ++ token_window_split target overlap sentence;
  }

  -- One round of the loop over the sentences.
  unfoldable pub add_sentence : ℕ → ℕ → Split → Text → Split
  add_sentence target overlap s sentence =
      if is_nil (strip sentence)
      then s
      else if ltb target (count_tokens k sentence)
      then push_windows target overlap (flush overlap s) sentence
      else push (make_room target overlap s (count_tokens k sentence)) sentence

  unfoldable pub add_sentences : ℕ → ℕ → Split → List Text → Split
  add_sentences target overlap s [] = s
  add_sentences target overlap s (x ∷ xs) =
      add_sentences target overlap (add_sentence target overlap s x) xs

  abbrev pub empty_split : Split
  empty_split = record { chunks = []; current = []; current_tokens = 0 }

  -- `_split_long_text`
  unfoldable pub split_long_text : ℕ → ℕ → Text → List Text
  split_long_text target overlap t =
      keep_if (λ c. not (is_nil c))
        (flush overlap
          (add_sentences target overlap empty_split (split_sentences plain [] t))).chunks
