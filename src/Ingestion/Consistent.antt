-- ===== src/Ingestion/Consistent.antt =====
-- Every attempt of every activity keeps the invariant of the tables.
use sentinal_rag.Ingestion.Workflow.{Sys, Payload, run}
use sentinal_rag.Ingestion.Persist.{
  delete_chunks, insert_chunks, read_chunks, replace_chunks, chunk_and_persist, rows_of, wipe,
  zip_embeddings, add_embeddings, embed_rows, embed_chunks,
}
use sentinal_rag.Chunking.{ParsedElement, Chunk}
use sentinal_rag.Base.{
  ◌==◌, if◌then◌else◌, Bool-cases, Option-cases, then_some, length, All-imp, ℕ, ◌<◌, String, inl,
  inr, ◌||◌, Option, none, some, List, [], ◌∷◌, map, arith,
}
use sentinal_rag.Base.Sort.{All-mapped, AllPairs-mapped}
use sentinal_rag.Base.Dict.{nat_eq, lookup}
use sentinal_rag.Base.Text.{Text, text_eq}
use sentinal_rag.Ingestion.{Version, Row, Embedding, World}
use sentinal_rag.Ingestion.Activities.{
  Services, put_raw, put_parsed, parse_document, update_document_version_storage_uri,
}
use sentinal_rag.Ingestion.Runs.{Keeps, whole-Keeps, run-Holds}
use sentinal_rag.Ingestion.Versions.{
  Apart, IsConsistent, mark_job_running-Keeps, mark_job_failed-Keeps, finalize_document-Keeps,
  upsert-Keeps,
}

parse_document-Keeps :
    (sv : Services) (uri mime strategy : Text)
    → Keeps IsConsistent (parse_document sv uri mime strategy)
unfolding parse_document
parse_document-Keeps sv uri mime strategy = record {
  done = λ w h. both w h (then_some (lookup uri w.store) (λ blob. sv.parse strategy blob mime));
  part = λ w h. one w h (then_some (lookup uri w.store) (λ blob. sv.parse strategy blob mime));
}
  where
    both :
        (w : World)
        → IsConsistent w
        → (o : Option (List ParsedElement)) → IsConsistent (put_parsed sv uri o w).1
    both w h none = h
    both w h (some elements) = h

    one :
        (w : World)
        → IsConsistent w
        → (o : Option (List ParsedElement)) → IsConsistent (put_raw uri o w)
    one w h none = h
    one w h (some elements) = h

update_uri-Keeps :
    (id : ℕ) (uri : Text) → Keeps IsConsistent (update_document_version_storage_uri id uri)
unfolding update_document_version_storage_uri
update_uri-Keeps id uri = whole-Keeps _ _ (λ w h. (
  h.0,
  AllPairs-mapped Apart _ w.versions (λ x y a. moved_apart x y a) h.1,
  All-mapped _ _ w.versions (λ v lt. moved_below w v lt) h.2,
))
  where
    moved : Version → Version
    moved v =
        if v.id == id
        then record v { storage_uri = uri; parser_version = some "unstructured" }
        else v

    moved_below : (w : World) (v : Version) → v.id < w.next_id → (moved v).id < w.next_id
    moved_below w v lt = elim (Bool-cases (v.id == id)) [ inl e ↦ rw e lt | inr e ↦ rw e lt ]

    moved_apart : (x y : Version) → Apart x y → Apart (moved x) (moved y)
    moved_apart x y a = elim (Bool-cases (x.id == id)) [
      | inl e ↦ elim (Bool-cases (y.id == id)) [ inl f ↦ rw (e, f) a | inr f ↦ rw (e, f) a ]
      | inr e ↦ elim (Bool-cases (y.id == id)) [ inl f ↦ rw (e, f) a | inr f ↦ rw (e, f) a ]
    ]

insert_chunks-IsConsistent :
    (d id : ℕ) (cs : List Chunk) (w : World)
    → IsConsistent w
    → IsConsistent (insert_chunks d id cs w)
unfolding insert_chunks
insert_chunks-IsConsistent d id [] w h = h
insert_chunks-IsConsistent d id (c ∷ cs) w h =
    insert_chunks-IsConsistent d id cs _
      (h.0, h.1, All-imp w.versions (λ v lt. omega (arith, lt)) h.2)

chunk_and_persist-Keeps :
    (sv : Services) (d id : ℕ) (uri strategy : Text)
    → Keeps IsConsistent (chunk_and_persist sv d id uri strategy)
unfolding chunk_and_persist
chunk_and_persist-Keeps sv d id uri strategy =
    whole-Keeps _ _ (λ w h. kept w h (read_chunks sv uri strategy w))
  where
    kept :
        (w : World)
        → IsConsistent w
        → (o : Option (List Chunk)) → IsConsistent (replace_chunks d id o w).1
    kept w h none = h
    kept w h (some cs) = insert_chunks-IsConsistent d id cs (delete_chunks id w) h

embed_rows-IsConsistent :
    (sv : Services) (model : String) (dim : ℕ) (rows : List Row) (w : World)
    → IsConsistent w
    → IsConsistent (embed_rows sv model dim rows w).1
unfolding embed_rows
embed_rows-IsConsistent sv model dim [] w h = h
embed_rows-IsConsistent sv model dim (r ∷ rs) w h =
    added (
      then_some (sv.embed model (map (λ x. x.content) (r ∷ rs)))
        (zip_embeddings model dim (r ∷ rs)))
  where
    added : (o : Option (List Embedding)) → IsConsistent (add_embeddings (length (r ∷ rs)) o w).1
    added none = h
    added (some new) = h

embed_chunks-Keeps :
    (sv : Services) (id : ℕ) (model : String) → Keeps IsConsistent (embed_chunks sv id model)
unfolding embed_chunks
embed_chunks-Keeps sv id model = elim (Option-cases (sv.dimension model)) [
  | inl e ↦ rw (embed_chunks, e) (whole-Keeps _ _ (λ w h. h))
  | inr (dim, e) ↦ elim (Bool-cases ((dim == 768) || (dim == 1024) || (dim == 1536))) [
    | inl b ↦
        rw (embed_chunks, e, b)
          (record {
            done = λ w h. embed_rows-IsConsistent sv model dim (rows_of id w) (wipe id model w) h;
            part = λ w h. h;
          })
    | inr b ↦ rw (embed_chunks, e, b) (whole-Keeps _ _ (λ w h. h))
  ]
]

-- Whatever befalls the attempts of a run, the tables stay consistent: no job has processed more
-- documents than it has, two versions have different ids, two of one document different hashes
-- and version numbers, and every version's id is below the next one.
pub run-IsConsistent :
    (sv : Services) (p : Payload) (s : Sys)
    → IsConsistent s.world
    → IsConsistent (run sv p s).1.world
run-IsConsistent sv p s h =
    (run-Holds IsConsistent (λ _. Unit {0}) (λ _ _. tt) sv p s
      (record {
        kept_upsert = λ hash. upsert-Keeps p.document_id hash p.storage_uri;
        kept_parse = parse_document-Keeps sv p.storage_uri p.mime_type p.parsing_strategy;
        kept_move = update_uri-Keeps;
        kept_chunk = λ id uri. chunk_and_persist-Keeps sv p.document_id id uri p.chunking_strategy;
        kept_embed = λ id. embed_chunks-Keeps sv id p.embedding_model;
        kept_finish = λ n. finalize_document-Keeps p.job_id p.document_id n;
      })
      (mark_job_running-Keeps p.job_id p.document_id) (mark_job_failed-Keeps p.job_id p.document_id)
      (h, tt)).0
