-- ===== src/Tests/ChunkingExamples.antt =====
-- The theorems on chunking at concrete inputs, with one token per character.
use sentinal_rag.Base.{
  length, is_nil, keep_if, All, ◌-◌, ◌<◌, ◌≡◌, refl, not, none, some, [], ◌∷◌, ◌++◌, map, arith,
}
use sentinal_rag.Base.Json.{end}
use sentinal_rag.Base.Text.{codes, text_eq, lstrip, strip, join}
use sentinal_rag.Chunking.{narrative_text, ParsedElement, Chunk, is_chunkable, count_tokens, slice}
use sentinal_rag.Chunking.Numbered.{IsNumbered, IsCounted, IsWellFormed}
use sentinal_rag.Chunking.SlidingWindow.{Config, collect, full_text, starts_of, chunk}
use sentinal_rag.Chunking.SlidingWindow.Coverage.{stitch, chunk-covers}
use sentinal_rag.Chunking.Sentences.{
  split_sentences, token_window_split, add_sentences, empty_split, split_long_text,
}
use sentinal_rag.Chunking.Sentences.Bounds.{sentence_cost, IsValid, add_sentences-IsValid}
use sentinal_rag.Chunking.Sentences.Duplicate.{split_long_text-repeats}
use sentinal_rag.Chunking.Semantic.{chunk as semantic_chunk}
use sentinal_rag.Chunking.Semantic.Laws.{chunk-IsWellFormed}
use sentinal_rag.Chunking.StructureAware.{
  start as structure_start, add_elements as structure_add, chunk as structure_chunk,
}
use sentinal_rag.Chunking.StructureAware.Laws.{IsValid as IsStructured, chunk-IsValid}
use sentinal_rag.Tests.Instances.{letters}

abbrev paragraph : ParsedElement
paragraph = record {
  text = codes "abcdefgh";
  element_type = narrative_text;
  page_number = some 1;
  section_title = none;
  table_html = none;
  metadata = end;
}

abbrev windows : Config
windows = record { target_tokens = 4; overlap_tokens = 1 }

chunk-covers_example :
    let ids = full_text letters windows (paragraph ∷ []) in
    (IsNumbered 0 (chunk letters windows (paragraph ∷ [])))
    × All (IsCounted letters) (chunk letters windows (paragraph ∷ []))
    × (map (λ (x : Chunk). x.text) (chunk letters windows (paragraph ∷ []))
        ≡ map (λ s. slice s 4 ids) (starts_of letters windows ids))
    × All (λ s. s < length ids) (starts_of letters windows ids)
    × (stitch (4 - 1) 4 ids (starts_of letters windows ids) ≡ ids)
unfolding collect is_chunkable strip lstrip join
chunk-covers_example = chunk-covers letters windows (paragraph ∷ []) (omega arith) refl

chunk-IsWellFormed_example : IsWellFormed letters (
    semantic_chunk letters
      (record { target_tokens = 4; overlap_tokens = 1; min_chunk_tokens = 2 })
      (paragraph ∷ []))
chunk-IsWellFormed_example =
    chunk-IsWellFormed letters
      (record { target_tokens = 4; overlap_tokens = 1; min_chunk_tokens = 2 }) (paragraph ∷ [])

add_sentences-IsValid_example :
    IsValid letters 4 1
      (add_sentences letters 4 1 (empty_split letters) (codes "ab." ∷ codes "cd." ∷ []))
unfolding sentence_cost
add_sentences-IsValid_example =
    add_sentences-IsValid letters 4 1 (empty_split letters) (codes "ab." ∷ codes "cd." ∷ [])
      (record { counted = refl; within = omega arith })

split_long_text-repeats_example :
    split_long_text letters 6 3 (codes "ab. cdefghijk")
    ≡ keep_if
        (λ c. not (is_nil c))
        (((strip (join (32 ∷ []) (codes "ab." ∷ [])) ∷ [])
            ++ token_window_split letters 6 3 (codes "cdefghijk"))
          ++ strip (join (32 ∷ []) (codes "ab." ∷ [])) ∷ [])
unfolding split_sentences strip lstrip sentence_cost count_tokens
split_long_text-repeats_example =
    split_long_text-repeats letters 6 3 (codes "ab. cdefghijk") (codes "cdefghijk")
      (codes "ab." ∷ []) refl (ground arith) (refl, tt) refl (omega arith) (omega arith)
      (omega arith)

chunk-IsValid_example :
    IsWellFormed letters (structure_chunk letters 4 (paragraph ∷ []))
    × IsStructured letters 4 (structure_add letters 4 structure_start (paragraph ∷ []))
chunk-IsValid_example = chunk-IsValid letters 4 (paragraph ∷ [])
