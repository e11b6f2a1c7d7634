-- ===== src/Ingestion/Ends/Exists.antt =====
-- The rows of the job and of the document stay, and what the last activities make of them.
use sentinal_rag.Ingestion.Runs.{Keeps, whole-Keeps}
use sentinal_rag.Ingestion.Persist.{
  delete_chunks, insert_chunks, read_chunks, replace_chunks, chunk_and_persist, rows_of, wipe,
  zip_embeddings, add_embeddings, embed_rows, embed_chunks,
}
use sentinal_rag.Ingestion.Activities.{
  Services, mark_job_running, mark_job_failed, find_version, upsert_from, upsert_document_version,
  put_raw, put_parsed, parse_document, update_document_version_storage_uri, finalized,
  finalize_document,
}
use sentinal_rag.Chunking.{ParsedElement, Chunk}
use sentinal_rag.Base.{
  ◌==◌, if◌then◌else◌, ==_iff, Bool-cases, Option-cases, is_some, then_some, map_some, length, ℕ,
  String, ◌≡◌, refl, ap, inl, inr, true, ◌||◌, Option, none, some, List, [], ◌∷◌, map, arith,
}
use sentinal_rag.Base.Dict.{nat_eq, Dict, lookup}
use sentinal_rag.Base.Text.{Text, text_eq}
use sentinal_rag.Ingestion.{
  JobStatus, completed, failed, DocumentStatus, indexed, broken, Job, Row, Embedding, World, update,
}

lookup-update :
    {V : Type 0} (k j : ℕ) (f : V → V) (d : Dict ℕ V)
    → lookup j (update k f d) ≡ (if k == j then map_some f (lookup j d) else lookup j d)
unfolding lookup update
lookup-update k j f [] = ground arith
lookup-update k j f ((i, v) ∷ d) =
    ground (arith, ==_iff k j, ==_iff i k, ==_iff i j, lookup-update k j f d)

module _ (job_id document_id : ℕ) where
  -- The two rows exist.
  abbrev pub RowsExist : World → Type 0
  RowsExist w =
      (is_some (lookup job_id w.jobs) ≡ true) × (is_some (lookup document_id w.documents) ≡ true)

  -- The statuses of the two rows.
  abbrev pub EndedAs : JobStatus → DocumentStatus → World → Type 0
  EndedAs js ds w =
      (map_some (λ j. j.status) (lookup job_id w.jobs) ≡ some js)
      × (lookup document_id w.documents ≡ some ds)

  is_some-map :
      {V : Type 0} (f : V → V) (o : Option V) → is_some o ≡ true → is_some (map_some f o) ≡ true
  is_some-map f none h = cc h
  is_some-map f (some v) h = refl

  is_some-update :
      {V : Type 0} (k j : ℕ) (f : V → V) (d : Dict ℕ V)
      → is_some (lookup j d) ≡ true
      → is_some (lookup j (update k f d)) ≡ true
  is_some-update k j f d h = elim (Bool-cases (k == j)) [
    | inl e ↦ rw (lookup-update k j f d, e) (is_some-map f (lookup j d) h)
    | inr e ↦ rw (lookup-update k j f d, e) h
  ]

  status-map :
      (js : JobStatus) (f : Job → Job) (o : Option Job)
      → ((j : Job) → (f j).status ≡ js)
      → is_some o ≡ true
      → map_some (λ j. j.status) (map_some f o) ≡ some js
  status-map js f none e h = cc h
  status-map js f (some j) e h = ap some (e j)

  const-map : {V : Type 0} (v : V) (o : Option V) → is_some o ≡ true → map_some (λ _. v) o ≡ some v
  const-map v none h = cc h
  const-map v (some x) h = refl

  updated-EndedAs :
      (js : JobStatus) (ds : DocumentStatus) (f : Job → Job) (w : World)
      → ((j : Job) → (f j).status ≡ js)
      → RowsExist w
      → EndedAs js ds (record w {
        jobs = update job_id f w.jobs;
        documents = update document_id (λ _. ds) w.documents;
      })
  updated-EndedAs js ds f w e h = (
    rw (lookup-update job_id job_id f w.jobs, (==_iff job_id job_id).1 refl)
        (status-map js f (lookup job_id w.jobs) e h.0),
    rw
        (
          lookup-update document_id document_id (λ _. ds) w.documents,
          (==_iff document_id document_id).1 refl,
        )
        (const-map ds (lookup document_id w.documents) h.1),
  )

  pub mark_job_failed-EndedAs :
      (w : World)
      → RowsExist w
      → EndedAs failed broken ((mark_job_failed job_id document_id).body w).1
  unfolding mark_job_failed
  mark_job_failed-EndedAs w h =
      updated-EndedAs failed broken (λ j. record j { status = failed }) w (λ j. refl) h

  pub finalize_document-EndedAs :
      (n : ℕ) (w : World)
      → RowsExist w
      → EndedAs completed indexed ((finalize_document job_id document_id n).body w).1
  unfolding finalize_document finalized
  finalize_document-EndedAs n w h = updated-EndedAs completed indexed (finalized n) w (λ j. refl) h

  updated-RowsExist :
      (f : Job → Job) (g : DocumentStatus → DocumentStatus) (w : World)
      → RowsExist w
      → RowsExist
          (record w { jobs = update job_id f w.jobs; documents = update document_id g w.documents })
  updated-RowsExist f g w h = (
    is_some-update job_id job_id f w.jobs h.0,
    is_some-update document_id document_id g w.documents h.1,
  )

  pub mark_job_running-exist : Keeps RowsExist (mark_job_running job_id document_id)
  unfolding mark_job_running
  mark_job_running-exist = whole-Keeps _ _ (λ w h. updated-RowsExist _ _ w h)

  pub mark_job_failed-exist : Keeps RowsExist (mark_job_failed job_id document_id)
  unfolding mark_job_failed
  mark_job_failed-exist = whole-Keeps _ _ (λ w h. updated-RowsExist _ _ w h)

  pub finalize_document-exist : (n : ℕ) → Keeps RowsExist (finalize_document job_id document_id n)
  unfolding finalize_document
  finalize_document-exist n = whole-Keeps _ _ (λ w h. updated-RowsExist _ _ w h)

  pub upsert-exist :
      (d : ℕ) (hash uri : Text) → Keeps RowsExist (upsert_document_version d hash uri)
  unfolding upsert_document_version
  upsert-exist d hash uri = whole-Keeps _ _ (λ w h. kept w h (find_version d hash w.versions))
    where
      kept : (w : World) → RowsExist w → (o : Option ℕ) → RowsExist (upsert_from d hash uri o w).1
      kept w h (some id) = h
      kept w h none = h

  pub parse_document-exist :
      (sv : Services) (uri mime strategy : Text)
      → Keeps RowsExist (parse_document sv uri mime strategy)
  unfolding parse_document
  parse_document-exist sv uri mime strategy = record {
    done = λ w h. both w h (then_some (lookup uri w.store) (λ blob. sv.parse strategy blob mime));
    part = λ w h. one w h (then_some (lookup uri w.store) (λ blob. sv.parse strategy blob mime));
  }
    where
      both :
          (w : World)
          → RowsExist w
          → (o : Option (List ParsedElement)) → RowsExist (put_parsed sv uri o w).1
      both w h none = h
      both w h (some elements) = h

      one :
          (w : World)
          → RowsExist w
          → (o : Option (List ParsedElement)) → RowsExist (put_raw uri o w)
      one w h none = h
      one w h (some elements) = h

  pub update_uri-exist :
      (id : ℕ) (uri : Text) → Keeps RowsExist (update_document_version_storage_uri id uri)
  unfolding update_document_version_storage_uri
  update_uri-exist id uri = whole-Keeps _ _ (λ w h. h)

  insert_chunks-RowsExist :
      (d id : ℕ) (cs : List Chunk) (w : World) → RowsExist w → RowsExist (insert_chunks d id cs w)
  unfolding insert_chunks
  insert_chunks-RowsExist d id [] w h = h
  insert_chunks-RowsExist d id (c ∷ cs) w h = insert_chunks-RowsExist d id cs _ h

  pub chunk_and_persist-exist :
      (sv : Services) (d id : ℕ) (uri strategy : Text)
      → Keeps RowsExist (chunk_and_persist sv d id uri strategy)
  unfolding chunk_and_persist
  chunk_and_persist-exist sv d id uri strategy =
      whole-Keeps _ _ (λ w h. kept w h (read_chunks sv uri strategy w))
    where
      kept :
          (w : World)
          → RowsExist w
          → (o : Option (List Chunk)) → RowsExist (replace_chunks d id o w).1
      kept w h none = h
      kept w h (some cs) = insert_chunks-RowsExist d id cs (delete_chunks id w) h

  embed_rows-RowsExist :
      (sv : Services) (model : String) (dim : ℕ) (rows : List Row) (w : World)
      → RowsExist w
      → RowsExist (embed_rows sv model dim rows w).1
  unfolding embed_rows
  embed_rows-RowsExist sv model dim [] w h = h
  embed_rows-RowsExist sv model dim (r ∷ rs) w h = added (
      then_some (sv.embed model (map (λ x. x.content) (r ∷ rs)))
        (zip_embeddings model dim (r ∷ rs)))
    where
      added : (o : Option (List Embedding)) → RowsExist (add_embeddings (length (r ∷ rs)) o w).1
      added none = h
      added (some new) = h

  pub embed_chunks-exist :
      (sv : Services) (id : ℕ) (model : String) → Keeps RowsExist (embed_chunks sv id model)
  unfolding embed_chunks
  embed_chunks-exist sv id model = elim (Option-cases (sv.dimension model)) [
    | inl e ↦ rw (embed_chunks, e) (whole-Keeps _ _ (λ w h. h))
    | inr (dim, e) ↦ elim (Bool-cases ((dim == 768) || (dim == 1024) || (dim == 1536))) [
      | inl b ↦
          rw (embed_chunks, e, b)
            (record {
              done = λ w h. embed_rows-RowsExist sv model dim (rows_of id w) (wipe id model w) h;
              part = λ w h. h;
            })
      | inr b ↦ rw (embed_chunks, e, b) (whole-Keeps _ _ (λ w h. h))
    ]
  ]
