-- ===== src/Chunking/StructureAware/Laws.antt =====
-- The structure-aware chunker: well-formed chunks, whole tables, and buffers within the target.
use sentinal_rag.Base.Text.{Text, strip, join}
use sentinal_rag.Base.{
  ltb, Bool-cases, length, is_nil, ℕ, ◌+◌, ◌≤◌, ◌≡◌, refl, ap, ◌⊎◌, inl, inr, true, false, ◌&&◌,
  not, Option, none, some, List, [], ◌∷◌, ◌++◌, arith,
}
use sentinal_rag.Chunking.Numbered.{IsWellFormed, IsWellFormed-snoc}
use sentinal_rag.Chunking.{table, ParsedElement, is_chunkable, Tokenizer, count_tokens, blank_line}
use sentinal_rag.Chunking.StructureAware.{
  State, text_or, body_of, text_parts, is_heading, is_table, start, buffer_chunk, emit_from, emit,
  make_room, push, alone, add_element, add_elements, chunk,
}

text_or-full : (o : Option Text) (d : Text) → is_nil d ≡ false → is_nil (text_or o d) ≡ false
unfolding text_or
text_or-full none d h = h
text_or-full (some []) d h = h
text_or-full (some (x ∷ t)) d h = refl

single_part :
    (e : ParsedElement) → is_chunkable e ≡ true → join blank_line (text_parts (e ∷ [])) ≡ body_of e
unfolding is_chunkable join text_parts
single_part e h =
    let solid : is_nil (strip e.text) ≡ false = ground arith in
    rw (text_or-full e.table_html (strip e.text) solid) refl

-- What the buffered elements count together.
unfoldable pub buffer_cost : Tokenizer → List ParsedElement → ℕ
buffer_cost k [] = 0
buffer_cost k (e ∷ es) = count_tokens k (body_of e) + buffer_cost k es

buffer_cost-snoc :
    (k : Tokenizer) (es : List ParsedElement) (e : ParsedElement)
    → buffer_cost k (es ++ e ∷ []) ≡ buffer_cost k es + count_tokens k (body_of e)
unfolding buffer_cost
buffer_cost-snoc k [] e = omega arith
buffer_cost-snoc k (x ∷ es) e = omega (arith, buffer_cost-snoc k es e)

-- Between two elements: chunks are well formed, the running count is the buffer's, and a buffer
-- over the target is a single element.
pub record IsValid (k : Tokenizer) (target : ℕ) (s : State) : Type 0 where
  pub chunks : IsWellFormed k s.out
  pub counted : s.buffer_tokens ≡ buffer_cost k s.buffer
  pub within : (s.buffer_tokens ≤ target) ⊎ (length s.buffer ≤ 1)

module _ (k : Tokenizer) (target : ℕ) where
  emit_from-IsValid :
      (s : State) (buffer : List ParsedElement)
      → s.buffer ≡ buffer
      → IsValid k target s
      → IsValid k target (emit_from k s buffer)
  unfolding buffer_cost
  emit_from-IsValid s [] e v = v
  emit_from-IsValid s (a ∷ rest) e v =
      elim (Bool-cases (is_nil (strip (join blank_line (text_parts (a ∷ rest)))))) [
        | inl blank ↦
            rw blank (record { chunks = v.chunks; counted = refl; within = inl (omega arith) })
        | inr full ↦ rw full (record {
          chunks =
              IsWellFormed-snoc k s.out
                (buffer_chunk k s a (strip (join blank_line (text_parts (a ∷ rest))))) v.chunks refl
                refl;
          counted = refl;
          within = inl (omega arith);
        })
      ]

  emit-IsValid : (s : State) → IsValid k target s → IsValid k target (emit k s)
  unfolding emit
  emit-IsValid s v = emit_from-IsValid s s.buffer refl v

  push-IsValid :
      (s : State) (e : ParsedElement)
      → IsValid k target s
      → (s.buffer_tokens + count_tokens k (body_of e) ≤ target) ⊎ (s.buffer ≡ [])
      → IsValid k target (push k s e)
  push-IsValid s e v room = record {
    chunks = v.chunks;
    counted = omega (arith, v.counted, buffer_cost-snoc k s.buffer e);
    within = elim room [ inl fits ↦ inl fits | inr fresh ↦ inr (rw fresh (omega arith)) ];
  }

  emit-empties : (s : State) → (emit k s).buffer ≡ []
  unfolding emit
  emit-empties s = go s.buffer refl
    where
      go : (b : List ParsedElement) → s.buffer ≡ b → (emit_from k s b).buffer ≡ []
      go [] e = e
      go (a ∷ rest) e = ground arith

  is_nil_lem : (b : List ParsedElement) → is_nil b ≡ true → b ≡ []
  is_nil_lem [] h = refl
  is_nil_lem (x ∷ b) h = cc

  make_room_lem :
      (s : State) (tokens : ℕ)
      → ((make_room k target s tokens).buffer_tokens + tokens ≤ target)
        ⊎ ((make_room k target s tokens).buffer ≡ [])
  unfolding make_room
  make_room_lem s tokens = ground (arith, emit-empties s, is_nil_lem s.buffer)

  make_room-IsValid :
      (s : State) (tokens : ℕ) → IsValid k target s → IsValid k target (make_room k target s tokens)
  unfolding make_room
  make_room-IsValid s tokens v =
      elim (Bool-cases (ltb target (s.buffer_tokens + tokens) && not (is_nil s.buffer))) [
        | inl over ↦ rw over (emit-IsValid s v)
        | inr fits ↦ rw fits v
      ]

  alone-IsValid :
      (s : State) (e : ParsedElement) → IsValid k target s → IsValid k target (alone k s e)
  unfolding buffer_cost
  alone-IsValid s e v = record {
    chunks = v.chunks;
    counted = omega arith;
    within = inr (omega arith);
  }

  add_element-IsValid :
      (s : State) (e : ParsedElement)
      → IsValid k target s
      → IsValid k target (add_element k target s e)
  unfolding add_element
  add_element-IsValid s e v =
      let emitted = emit-IsValid s v in
      let tokens = count_tokens k (body_of e) in
      elim (Bool-cases (is_chunkable e)) [
        | inr skip ↦ rw skip v
        | inl take_it ↦ rw take_it (elim (Bool-cases (is_heading e.element_type)) [
          | inl head ↦ rw head (record {
            chunks = emitted.chunks;
            counted = emitted.counted;
            within = emitted.within;
          })
          | inr body ↦ rw body (elim (Bool-cases (is_table e.element_type)) [
            | inl whole ↦
                rw whole (emit-IsValid (alone k (emit k s) e) (alone-IsValid (emit k s) e emitted))
            | inr text_like ↦ rw text_like (
                push-IsValid (make_room k target s tokens) e (make_room-IsValid s tokens v)
                  (make_room_lem s tokens))
          ])
        ])
      ]

  add_elements-IsValid :
      (s : State) (es : List ParsedElement)
      → IsValid k target s
      → IsValid k target (add_elements k target s es)
  unfolding add_elements
  add_elements-IsValid s [] v = v
  add_elements-IsValid s (e ∷ es) v =
      add_elements-IsValid (add_element k target s e) es (add_element-IsValid s e v)

  -- After any list of elements the chunks are numbered from 0 in order and each carries the
  -- token count of its own text, with and without the last flush, and before it the running
  -- count is the sum of the buffered elements' counts, and a buffer over the target is one
  -- element.
  pub chunk-IsValid :
      (elements : List ParsedElement)
      → IsWellFormed k (chunk k target elements)
        × IsValid k target (add_elements k target start elements)
  unfolding chunk buffer_cost
  chunk-IsValid elements =
      let v = add_elements-IsValid start elements (record {
        chunks = record { numbered = tt; counted = tt };
        counted = refl;
        within = inl (omega arith);
      }) in
      ((emit-IsValid (add_elements k target start elements) v).chunks, v)

  -- A chunkable table whose text is not blank becomes one chunk of its own, with its whole
  -- HTML or text, whatever its size and whatever was buffered; and the buffer is empty again.
  pub add_element-table :
      (s : State) (e : ParsedElement)
      → is_chunkable e ≡ true
      → e.element_type ≡ table
      → is_nil (strip (body_of e)) ≡ false
      → (add_element k target s e ≡ record (emit k s) {
        out = (emit k s).out ++ (buffer_chunk k (alone k (emit k s) e) e (strip (body_of e)) ∷ []);
        buffer = [];
        buffer_tokens = 0;
      })
  unfolding add_element emit
  add_element-table s e fit t full =
      let heads : is_heading e.element_type ≡ false = ap is_heading t in
      let whole : is_table e.element_type ≡ true = ap is_table t in
      rw (fit, heads, whole, single_part e fit, full) refl
