-- ===== src/Chunking/Numbered.antt =====
-- What every chunker promises of its chunks: `chunk_index` counts from 0 and `token_count` is the
-- tokenizer's count of the text.
use sentinal_rag.Base.{length, All, All-snoc, ℕ, ◌+◌, ◌≡◌, List, [], ◌∷◌, ◌++◌, arith}
use sentinal_rag.Chunking.{Chunk, Tokenizer, count_tokens}

abbrev pub IsNumbered : ℕ → List Chunk → Type 0
IsNumbered n [] = Unit
IsNumbered n (c ∷ cs) = (c.chunk_index ≡ n) × IsNumbered (n + 1) cs

abbrev pub IsCounted : Tokenizer → Chunk → Type 0
IsCounted k c = c.token_count ≡ count_tokens k c.text

pub IsNumbered-snoc :
    (n : ℕ) (cs : List Chunk) (c : Chunk)
    → IsNumbered n cs
    → c.chunk_index ≡ n + length cs
    → IsNumbered n (cs ++ c ∷ [])
IsNumbered-snoc n [] c h e = (omega arith, tt)
IsNumbered-snoc n (d ∷ cs) c h e = (h.0, IsNumbered-snoc (n + 1) cs c h.1 (omega arith))

-- Both promises at once, for the chunks written so far.
pub record IsWellFormed (k : Tokenizer) (cs : List Chunk) : Type 0 where
  pub numbered : IsNumbered 0 cs
  pub counted : All (IsCounted k) cs

pub IsWellFormed-snoc :
    (k : Tokenizer) (cs : List Chunk) (c : Chunk)
    → IsWellFormed k cs
    → c.chunk_index ≡ length cs
    → IsCounted k c
    → IsWellFormed k (cs ++ c ∷ [])
IsWellFormed-snoc k cs c w e n = record {
  numbered = IsNumbered-snoc 0 cs c w.numbered (omega arith);
  counted = All-snoc (IsCounted k) cs c w.counted n;
}
