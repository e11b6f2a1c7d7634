-- ===== src/Chunking/StructureAware.antt =====
-- `StructureAwareChunker.chunk` of chunking/structure_aware.py.
pub mod Laws
use sentinal_rag.Base.{
  ltb, if◌then◌else◌, length, is_nil, ℕ, ◌+◌, Bool, true, false, ◌&&◌, not, Option, none, some,
  List, [], ◌∷◌, ◌++◌,
}
use sentinal_rag.Base.Text.{Text, strip, join}
use sentinal_rag.Chunking.{
  ElementType, title, heading, table, ParsedElement, Chunk, is_chunkable, Tokenizer, count_tokens,
  blank_line,
}

pub record State : Type 0 where
  pub out : List Chunk
  pub buffer : List ParsedElement
  pub buffer_tokens : ℕ
  pub active_section : Option Text

-- `a or b` for texts that may be missing: the empty text counts as missing.
unfoldable pub text_or : Option Text → Text → Text
text_or none d = d
text_or (some []) d = d
text_or (some (x ∷ t)) d = x ∷ t

unfoldable pub first_of_texts : Option Text → Option Text → Option Text
first_of_texts none d = d
first_of_texts (some []) d = d
first_of_texts (some (x ∷ t)) d = some (x ∷ t)

-- `e.table_html or e.text`
unfoldable pub body_of : ParsedElement → Text
unfolding text_or
body_of e = text_or e.table_html e.text

-- `[e.table_html or e.text for e in buffer if (e.table_html or e.text.strip())]`
unfoldable pub text_parts : List ParsedElement → List Text
unfolding text_or body_of
text_parts [] = []
text_parts (e ∷ es) =
    let rest = text_parts es in
    if is_nil (text_or e.table_html (strip e.text)) then rest else body_of e ∷ rest

abbrev pub is_heading : ElementType → Bool
is_heading title = true
is_heading heading = true
is_heading _ = false

abbrev pub is_table : ElementType → Bool
is_table table = true
is_table _ = false

abbrev single_table : List ParsedElement → Option Text
single_table [] = none
single_table (e ∷ []) = e.table_html
single_table (e ∷ f ∷ es) = none

abbrev pub start : State
start = record { out = []; buffer = []; buffer_tokens = 0; active_section = none }

module _ (k : Tokenizer) where
  abbrev pub buffer_chunk : State → ParsedElement → Text → Chunk
  buffer_chunk s anchor t = record {
    text = t;
    chunk_index = length s.out;
    token_count = count_tokens k t;
    page_number = anchor.page_number;
    section_title = first_of_texts s.active_section anchor.section_title;
    table_html = single_table s.buffer;
  }

  -- `buffer[0]` is the anchor
  abbrev pub emit_from : State → List ParsedElement → State
  emit_from s [] = s
  emit_from s (anchor ∷ rest) =
      let t = strip (join blank_line (text_parts (anchor ∷ rest))) in
      if is_nil t then record s { buffer = []; buffer_tokens = 0 } else record s {
        out = s.out ++ (buffer_chunk s anchor t ∷ []);
        buffer = [];
        buffer_tokens = 0;
      }

  unfoldable pub emit : State → State
  emit s = emit_from s s.buffer

  -- "Would adding this element overflow the budget?"
  unfoldable pub make_room : ℕ → State → ℕ → State
  make_room target s tokens =
      if ltb target (s.buffer_tokens + tokens) && not (is_nil s.buffer) then emit s else s

  abbrev pub push : State → ParsedElement → State
  push s e = record s {
    buffer = s.buffer ++ (e ∷ []);
    buffer_tokens = s.buffer_tokens + count_tokens k (body_of e);
  }

  -- A table is the whole buffer and is emitted at once.
  abbrev pub alone : State → ParsedElement → State
  alone s e = record s { buffer = e ∷ []; buffer_tokens = count_tokens k (body_of e) }

  abbrev pub open_section : State → ParsedElement → State
  open_section s e = record s {
    active_section = first_of_texts (some (strip e.text)) s.active_section;
  }

  -- One round of the loop.
  unfoldable pub add_element : ℕ → State → ParsedElement → State
  add_element target s e =
      if not (is_chunkable e)
      then s
      else if is_heading e.element_type
      then open_section (emit s) e
      else if is_table e.element_type
      then emit (alone (emit s) e)
      else push (make_room target s (count_tokens k (body_of e))) e

  unfoldable pub add_elements : ℕ → State → List ParsedElement → State
  add_elements target s [] = s
  add_elements target s (e ∷ es) = add_elements target (add_element target s e) es

  unfoldable pub chunk : ℕ → List ParsedElement → List Chunk
  chunk target elements = (emit (add_elements target start elements)).out
