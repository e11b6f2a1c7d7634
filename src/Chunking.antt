-- ===== src/Chunking.antt =====
-- The chunkers of packages/shared/python/sentinelrag_shared/chunking/ and the parsed elements of
-- packages/shared/python/sentinelrag_shared/parsing/elements.py. The tokenizer (tiktoken) is an
-- argument: `encode` and `decode`. The `metadata` of chunks is left out: the chunkers never write
-- it.
pub mod SlidingWindow
pub mod Sentences
pub mod Semantic
pub mod StructureAware
pub mod Numbered
use sentinal_rag.Base.{
  length, take, drop, is_nil, ℕ, Bool, true, false, ◌&&◌, not, Option, List, [], ◌∷◌,
}
use sentinal_rag.Base.Json.{Fields}
use sentinal_rag.Base.Text.{Text, strip}

pub data ElementType : Type 0 where
  title heading narrative_text list_item table image formula page_break header footer
        uncategorized :
      ElementType

pub record ParsedElement : Type 0 where
  pub text : Text
  pub element_type : ElementType
  pub page_number : Option ℕ
  pub section_title : Option Text
  pub table_html : Option Text
  pub metadata : Fields

pub record Chunk : Type 0 where
  pub text : Text
  pub chunk_index : ℕ
  pub token_count : ℕ
  pub page_number : Option ℕ
  pub section_title : Option Text
  pub table_html : Option Text

abbrev pub navigational : ElementType → Bool
navigational header = true
navigational footer = true
navigational page_break = true
navigational image = true
navigational _ = false

-- `ParsedElement.is_chunkable`
unfoldable pub is_chunkable : ParsedElement → Bool
is_chunkable e = not (navigational e.element_type) && not (is_nil (strip e.text))

-- The tokenizer's two functions.
pub record Tokenizer : Type 0 where
  pub encode : Text → List ℕ
  pub decode : List ℕ → Text

unfoldable pub count_tokens : Tokenizer → Text → ℕ
count_tokens k t = length (k.encode t)

-- The separator "\n\n".
abbrev pub blank_line : Text
blank_line = 10 ∷ 10 ∷ []

-- `list[start : start + size]`
abbrev pub slice {ℓ} : {A : Type ℓ} → ℕ → ℕ → List A → List A
slice start size xs = take size (drop start xs)
