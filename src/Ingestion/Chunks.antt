-- ===== src/Ingestion/Chunks.antt =====
-- What `chunk_and_persist` leaves in the tables, however often it was attempted.
use sentinal_rag.Ingestion.Runs.{Keeps, whole-Keeps, execute_activity-acked}
use sentinal_rag.Ingestion.Workflow.{Sys, execute_activity}
use sentinal_rag.Ingestion.Activities.{Services}
use sentinal_rag.Base.{
  ◌==◌, ==_iff, some_inj, length, keep_if, keep_if-append, keep_if_idem, keep_if-not, ℕ, ◌≡◌, refl,
  sym, subst, ap, ◌∙◌, Bool, not, Option, none, some, List, [], ◌∷◌, ◌++◌, map, append_assoc,
  append-nil,
}
use sentinal_rag.Base.Dict.{nat_eq}
use sentinal_rag.Base.Text.{Text, text_eq}
use sentinal_rag.Chunking.{Chunk}
use sentinal_rag.Ingestion.{Row, World}
use sentinal_rag.Ingestion.Persist.{
  delete_chunks, row_of, insert_chunks, read_chunks, replace_chunks, chunk_and_persist,
}

-- The columns of a row that come from its chunk, and the chunk's.
abbrev pub Content : Type 0
Content = ℕ × Text × ℕ × Option ℕ × Option Text

abbrev pub content_of : Row → Content
content_of r = (r.chunk_index, r.content, r.token_count, r.page_number, r.section_title)

abbrev pub chunk_content : Chunk → Content
chunk_content c = (c.chunk_index, c.text, c.token_count, c.page_number, c.section_title)

map-append {ℓ κ} :
    {A : Type ℓ} {B : Type κ} (f : A → B) (xs ys : List A) → map f (xs ++ ys) ≡ map f xs ++ map f ys
map-append f [] ys = refl
map-append f (x ∷ xs) ys = ap (λ t. f x ∷ t) (map-append f xs ys)

module _ (id : ℕ) where
  abbrev pub mine : Row → Bool
  mine r = r.version_id == id

  abbrev pub others : Row → Bool
  others r = not (r.version_id == id)

  mine-insert_chunks :
      (d : ℕ) (cs : List Chunk) (w : World)
      → map content_of (keep_if mine (insert_chunks d id cs w).chunks)
        ≡ map content_of (keep_if mine w.chunks) ++ map chunk_content cs
  unfolding insert_chunks
  mine-insert_chunks d [] w = sym (append-nil _)
  mine-insert_chunks d (c ∷ cs) w =
      mine-insert_chunks d cs _
      ∙ ap (λ x. map content_of x ++ map chunk_content cs) (keep_if-append mine w.chunks _)
      ∙ rw
          (
            (==_iff id id).1 refl,
            map-append content_of (keep_if mine w.chunks) (row_of d id w.next_id c ∷ []),
          )
          (append_assoc (map content_of (keep_if mine w.chunks)) (chunk_content c ∷ [])
            (map chunk_content cs))

  others-insert_chunks :
      (d : ℕ) (cs : List Chunk) (w : World)
      → keep_if others (insert_chunks d id cs w).chunks ≡ keep_if others w.chunks
  unfolding insert_chunks
  others-insert_chunks d [] w = refl
  others-insert_chunks d (c ∷ cs) w =
      others-insert_chunks d cs _
      ∙ keep_if-append others w.chunks _
      ∙ rw ((==_iff id id).1 refl) (append-nil (keep_if others w.chunks))

  store-insert_chunks :
      (d : ℕ) (cs : List Chunk) (w : World) → (insert_chunks d id cs w).store ≡ w.store
  unfolding insert_chunks
  store-insert_chunks d [] w = refl
  store-insert_chunks d (c ∷ cs) w = store-insert_chunks d cs _

module _ (sv : Services) (d id : ℕ) (uri strategy : Text) (s : Sys) where
  -- What the attempts do not touch.
  abbrev Untouched : World → Type 0
  Untouched w =
      (w.store ≡ s.world.store)
      × (keep_if (others id) w.chunks ≡ keep_if (others id) s.world.chunks)

  replaced-Untouched :
      (w : World) (o : Option (List Chunk)) → Untouched w → Untouched (replace_chunks d id o w).1
  replaced-Untouched w none h = h
  replaced-Untouched w (some cs) h = (
    store-insert_chunks id d cs (delete_chunks id w) ∙ h.0,
    others-insert_chunks id d cs (delete_chunks id w) ∙ keep_if_idem (others id) w.chunks ∙ h.1,
  )

  chunk_and_persist-Untouched : Keeps Untouched (chunk_and_persist sv d id uri strategy)
  unfolding chunk_and_persist
  chunk_and_persist-Untouched =
      whole-Keeps _ _ (λ w h. replaced-Untouched w (read_chunks sv uri strategy w) h)

  read_chunks-store :
      (w : World)
      → w.store ≡ s.world.store
      → read_chunks sv uri strategy w ≡ read_chunks sv uri strategy s.world
  unfolding read_chunks
  read_chunks-store w e = rw e refl

  -- The rows of the version are those of the chunks, and the other rows are as before.
  abbrev pub IsStored : ℕ → List Chunk → World → Type 0
  IsStored n cs w =
      (read_chunks sv uri strategy s.world ≡ some cs)
      × (n ≡ length cs)
      × (map content_of (keep_if (mine id) w.chunks) ≡ map chunk_content cs)
      × (keep_if (others id) w.chunks ≡ keep_if (others id) s.world.chunks)

  replaced-IsStored :
      (w v : World) (n : ℕ) (o : Option (List Chunk))
      → Untouched w
      → read_chunks sv uri strategy s.world ≡ o
      → replace_chunks d id o w ≡ (some n, v)
      → (cs : List Chunk) × IsStored n cs v
  replaced-IsStored w v n none u r e = cc (ap (λ x. x.0) e)
  replaced-IsStored w v n (some cs) u r e =
      let after = insert_chunks d id cs (delete_chunks id w) in
      subst (λ x. (ds : List Chunk) × IsStored n ds x) (ap (λ x. x.1) e)
        (
          cs,
          (
            r,
            some_inj n (length cs) (sym (ap (λ x. x.0) e)),
            mine-insert_chunks id d cs (delete_chunks id w)
                ∙ ap (λ x. map content_of x ++ map chunk_content cs)
                    (keep_if-not (mine id) w.chunks),
            (replaced-Untouched w (some cs) u).1,
          ),
        )

  -- When an execution of `chunk_and_persist` returns a number, with any attempts and faults before,
  -- it is that of the chunks of the stored elements, the rows of the version are exactly those
  -- chunks in their order, and the rows of the other versions are as they were.
  pub chunk_and_persist-IsStored :
      (left n : ℕ)
      → (execute_activity left (chunk_and_persist sv d id uri strategy) s).0 ≡ some n
      → (cs : List Chunk) × IsStored n cs
          (execute_activity left (chunk_and_persist sv d id uri strategy) s).1.world
  unfolding chunk_and_persist
  chunk_and_persist-IsStored left n e =
      let act = chunk_and_persist sv d id uri strategy in
      let (w, u, done) =
        execute_activity-acked Untouched left act s n chunk_and_persist-Untouched (refl, refl) e in
      replaced-IsStored w (execute_activity left act s).1.world n (read_chunks sv uri strategy w) u
        (sym (read_chunks-store w u.0)) done
