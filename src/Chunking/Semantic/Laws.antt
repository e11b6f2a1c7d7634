-- ===== src/Chunking/Semantic/Laws.antt =====
-- The chunks of the semantic chunker are numbered and counted, and no buffer passes the target.
use sentinal_rag.Base.{
  ltb, Bool-cases, is_nil, All, ℕ, ◌+◌, refl, inl, inr, ◌&&◌, not, List, [], ◌∷◌, ◌++◌, arith,
}
use sentinal_rag.Base.Text.{Text, strip, join}
use sentinal_rag.Chunking.Numbered.{IsNumbered, IsCounted, IsWellFormed, IsWellFormed-snoc}
use sentinal_rag.Chunking.{ParsedElement, Chunk, Tokenizer, count_tokens, blank_line}
use sentinal_rag.Chunking.Sentences.{split_long_text}
use sentinal_rag.Chunking.Semantic.{
  Config, State, update_last, start, merge, fresh_chunk, emit_text, emit, part_chunk, append_parts,
  add_element, add_elements, chunk,
}

module _ (k : Tokenizer) (c : Config) where
  merge_last-IsNumbered :
      (n : ℕ) (cs : List Chunk) (t : Text)
      → IsNumbered n cs
      → IsNumbered n (update_last (λ prev. merge k c prev t) cs)
  unfolding update_last
  merge_last-IsNumbered n [] t h = tt
  merge_last-IsNumbered n (x ∷ []) t h = h
  merge_last-IsNumbered n (x ∷ y ∷ cs) t h = (h.0, merge_last-IsNumbered (n + 1) (y ∷ cs) t h.1)

  merge_last-IsCounted :
      (cs : List Chunk) (t : Text)
      → All (IsCounted k) cs
      → All (IsCounted k) (update_last (λ prev. merge k c prev t) cs)
  unfolding update_last
  merge_last-IsCounted [] t h = tt
  merge_last-IsCounted (x ∷ []) t h = (refl, tt)
  merge_last-IsCounted (x ∷ y ∷ cs) t h = (h.0, merge_last-IsCounted (y ∷ cs) t h.1)

  emit_text-IsWellFormed :
      (s : State) (t : Text) → IsWellFormed k s.out → IsWellFormed k (emit_text k c s t)
  unfolding emit_text
  emit_text-IsWellFormed s t w =
      elim (Bool-cases (ltb (count_tokens k t) c.min_chunk_tokens && not (is_nil s.out))) [
        | inl small ↦ rw small (record {
          numbered = merge_last-IsNumbered 0 s.out t w.numbered;
          counted = merge_last-IsCounted s.out t w.counted;
        })
        | inr large ↦ rw large (IsWellFormed-snoc k s.out (fresh_chunk k c s t) w refl refl)
      ]

  emit-IsWellFormed : (s : State) → IsWellFormed k s.out → IsWellFormed k (emit k c s).out
  unfolding emit
  emit-IsWellFormed s w =
      ground (arith, emit_text-IsWellFormed s (strip (join blank_line s.buffer)) w)

  append_parts-IsWellFormed :
      (e : ParsedElement) (out : List Chunk) (subs : List Text)
      → IsWellFormed k out
      → IsWellFormed k (append_parts k c e out subs)
  unfolding append_parts
  append_parts-IsWellFormed e out [] w = w
  append_parts-IsWellFormed e out (t ∷ subs) w =
      append_parts-IsWellFormed e (out ++ part_chunk k c e out t ∷ []) subs
        (IsWellFormed-snoc k out (part_chunk k c e out t) w refl refl)

  add_element-IsWellFormed :
      (s : State) (e : ParsedElement)
      → IsWellFormed k s.out
      → IsWellFormed k (add_element k c s e).out
  unfolding add_element
  add_element-IsWellFormed s e w =
      let emitted = emit-IsWellFormed s w in
      ground (
        arith,
        emitted,
        append_parts-IsWellFormed e (emit k c s).out
            (split_long_text k c.target_tokens c.overlap_tokens (strip e.text)) emitted,
      )

  add_elements-IsWellFormed :
      (s : State) (es : List ParsedElement)
      → IsWellFormed k s.out
      → IsWellFormed k (add_elements k c s es).out
  unfolding add_elements
  add_elements-IsWellFormed s [] w = w
  add_elements-IsWellFormed s (e ∷ es) w =
      add_elements-IsWellFormed (add_element k c s e) es (add_element-IsWellFormed s e w)

  -- For any document, merges of small tails and split paragraphs included, the chunks are
  -- numbered from 0 in order and each carries the token count of its own text.
  pub chunk-IsWellFormed : (elements : List ParsedElement) → IsWellFormed k (chunk k c elements)
  unfolding chunk
  chunk-IsWellFormed elements =
      emit-IsWellFormed (add_elements k c start elements)
        (add_elements-IsWellFormed start elements (record { numbered = tt; counted = tt }))
