-- ===== src/Chunking/SlidingWindow.antt =====
-- `SlidingWindowChunker` of chunking/sliding_window.py.
pub mod Coverage
use sentinal_rag.Base.{
  ltb, leb, if◌then◌else◌, length, take, is_nil, ℕ, zero, suc, ◌+◌, ◌-◌, ◌&&◌, not, Option, none,
  some, List, [], ◌∷◌,
}
use sentinal_rag.Base.Text.{Text, strip, join}
use sentinal_rag.Chunking.{
  ParsedElement, Chunk, is_chunkable, Tokenizer, count_tokens, blank_line, slice,
}

pub record Config : Type 0 where
  pub target_tokens : ℕ
  pub overlap_tokens : ℕ

-- The constructor; `none` is the `ValueError`.
unfoldable pub make : ℕ → ℕ → Option Config
make target overlap =
    if leb target overlap
    then none
    else some (record { target_tokens = target; overlap_tokens = overlap })

-- The first loop: the character offset of each chunkable element, and its stripped text.
unfoldable pub collect : List ParsedElement → ℕ → List (ℕ × ParsedElement) × List Text
collect [] cursor = ([], [])
collect (e ∷ es) cursor =
    let t = strip e.text in
    let taken = is_chunkable e && not (is_nil t) in
    let (anchors, pieces) = collect es (if taken then cursor + (length t + 2) else cursor) in
    if taken then ((cursor, e) ∷ anchors, t ∷ pieces) else (anchors, pieces)

-- `_anchor_at`: the last anchor before the first whose offset lies beyond `char_offset`
unfoldable pub anchor_at :
    ℕ → List (ℕ × ParsedElement) → Option ParsedElement → Option ParsedElement
anchor_at char_offset [] last = last
anchor_at char_offset ((offset, e) ∷ anchors) last =
    let rest = anchor_at char_offset anchors (some e) in
    if ltb char_offset offset then last else rest

-- The starts of the windows: `range(0, n, step)` up to the `break`.
unfoldable pub window_starts : ℕ → ℕ → ℕ → ℕ → ℕ → List ℕ
window_starts zero n step target start = []
window_starts (suc fuel) n step target start =
    let rest = window_starts fuel n step target (start + step) in
    if ltb start n then (if leb n (start + target) then start ∷ [] else start ∷ rest) else []

module _ (k : Tokenizer) (c : Config) where
  abbrev window_chunk : List ℕ → List (ℕ × ParsedElement) → ℕ → ℕ → Chunk
  window_chunk ids anchors index start =
      let t = k.decode (slice start c.target_tokens ids) in
      let anchor = anchor_at (length (k.decode (take start ids))) anchors none in
      record {
        text = t;
        chunk_index = index;
        token_count = count_tokens k t;
        page_number = elim anchor [ none ↦ none | some e ↦ e.page_number ];
        section_title = elim anchor [ none ↦ none | some e ↦ e.section_title ];
        table_html = none;
      }

  unfoldable pub number_windows : List ℕ → List (ℕ × ParsedElement) → ℕ → List ℕ → List Chunk
  number_windows ids anchors index [] = []
  number_windows ids anchors index (s ∷ starts) =
      window_chunk ids anchors index s ∷ number_windows ids anchors (index + 1) starts

  -- `"\n\n".join(joined_pieces)`
  abbrev pub full_text : List ParsedElement → Text
  full_text elements = join blank_line (collect elements 0).1

  abbrev pub starts_of : List ℕ → List ℕ
  starts_of ids =
      window_starts (length ids) (length ids) (c.target_tokens - c.overlap_tokens) c.target_tokens 0

  unfoldable pub chunk : List ParsedElement → List Chunk
  chunk elements =
      let ids = k.encode (full_text elements) in
      if is_nil (full_text elements)
      then []
      else number_windows ids (collect elements 0).0 0 (starts_of ids)
