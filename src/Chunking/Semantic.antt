-- ===== src/Chunking/Semantic.antt =====
-- `SemanticChunker.chunk` of chunking/semantic.py.
pub mod Laws
use sentinal_rag.Base.{
  ltb, leb, if◌then◌else◌, length, is_nil, ℕ, ◌+◌, ◌&&◌, ◌||◌, not, Option, none, some, List, [],
  ◌∷◌, ◌++◌,
}
use sentinal_rag.Base.Text.{Text, strip, join}
use sentinal_rag.Chunking.{ParsedElement, Chunk, is_chunkable, Tokenizer, count_tokens, blank_line}
use sentinal_rag.Chunking.Sentences.{split_long_text}

pub record Config : Type 0 where
  pub target_tokens : ℕ
  pub overlap_tokens : ℕ
  pub min_chunk_tokens : ℕ

-- The constructor; `none` is the `ValueError`.
unfoldable pub make : ℕ → ℕ → ℕ → Option Config
make target overlap min_chunk =
    if leb target overlap
    then none
    else some
        (record { target_tokens = target; overlap_tokens = overlap; min_chunk_tokens = min_chunk })

-- `_JOIN_TOKEN_COST`
abbrev pub join_token_cost : ℕ
join_token_cost = 1

-- The variables that `chunk` and its `emit` share.
pub record State : Type 0 where
  pub out : List Chunk
  pub buffer : List Text
  pub buffer_tokens : ℕ
  pub anchor_page : Option ℕ
  pub anchor_section : Option Text

-- `out[-1] = f(out[-1])`
unfoldable pub update_last : (Chunk → Chunk) → List Chunk → List Chunk
update_last f [] = []
update_last f (x ∷ []) = f x ∷ []
update_last f (x ∷ y ∷ cs) = x ∷ update_last f (y ∷ cs)

abbrev pub reset : State → State
reset s = record s { buffer = []; buffer_tokens = 0; anchor_page = none; anchor_section = none }

abbrev pub start : State
start = record {
  out = [];
  buffer = [];
  buffer_tokens = 0;
  anchor_page = none;
  anchor_section = none;
}

module _ (k : Tokenizer) (c : Config) where
  -- the previous chunk with the text merged into it
  abbrev pub merge : Chunk → Text → Chunk
  merge prev t =
      let merged_text = prev.text ++ (blank_line ++ t) in
      record prev { text = merged_text; token_count = count_tokens k merged_text }

  abbrev pub fresh_chunk : State → Text → Chunk
  fresh_chunk s t = record {
    text = t;
    chunk_index = length s.out;
    token_count = count_tokens k t;
    page_number = s.anchor_page;
    section_title = s.anchor_section;
    table_html = none;
  }

  unfoldable pub emit_text : State → Text → List Chunk
  emit_text s t =
      if ltb (count_tokens k t) c.min_chunk_tokens && not (is_nil s.out)
      then update_last (λ prev. merge prev t) s.out
      else s.out ++ (fresh_chunk s t ∷ [])

  unfoldable pub emit : State → State
  emit s =
      if is_nil s.buffer
      then s
      else (let t = strip (join blank_line s.buffer) in
          if is_nil t then reset s else reset (record s { out = emit_text s t }))

  abbrev pub part_chunk : ParsedElement → List Chunk → Text → Chunk
  part_chunk e out sub_chunk = record {
    text = sub_chunk;
    chunk_index = length out;
    token_count = count_tokens k sub_chunk;
    page_number = e.page_number;
    section_title = e.section_title;
    table_html = none;
  }

  -- The chunks of an oversized paragraph.
  unfoldable pub append_parts : ParsedElement → List Chunk → List Text → List Chunk
  append_parts e out [] = out
  append_parts e out (t ∷ subs) = append_parts e (out ++ (part_chunk e out t ∷ [])) subs

  abbrev pub anchor : State → ParsedElement → State
  anchor s e =
      if is_nil s.buffer
      then record s { anchor_page = e.page_number; anchor_section = e.section_title }
      else s

  -- One round of the loop over the elements.
  unfoldable pub add_element : State → ParsedElement → State
  add_element s e =
      let t = strip e.text in
      let tokens = count_tokens k t in
      if not (is_chunkable e) || is_nil t
      then s
      else if ltb c.target_tokens tokens
      then (let f = emit s in
          record f {
            out = append_parts e f.out (split_long_text k c.target_tokens c.overlap_tokens t);
          })
      else (let f =
            anchor
              (if ltb c.target_tokens (s.buffer_tokens + join_token_cost + tokens)
                then emit s
                else s)
              e in
          record f {
            buffer = f.buffer ++ (t ∷ []);
            buffer_tokens =
                f.buffer_tokens + (tokens + (if is_nil f.buffer then 0 else join_token_cost));
          })

  unfoldable pub add_elements : State → List ParsedElement → State
  add_elements s [] = s
  add_elements s (e ∷ es) = add_elements (add_element s e) es

  unfoldable pub chunk : List ParsedElement → List Chunk
  chunk elements = (emit (add_elements start elements)).out
