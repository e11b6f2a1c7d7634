-- ===== src/Ingestion/Persist.antt =====
-- `chunk_and_persist` and `embed_chunks` of activities/ingestion.py.
use sentinal_rag.Base.{
  ltb, ◌==◌, if◌then◌else◌, then_some, length, is_nil, keep_if, any, ℕ, suc, String, ◌&&◌, ◌||◌,
  not, Option, none, some, List, [], ◌∷◌, ◌++◌, map, str_eq,
}
use sentinal_rag.Base.Dict.{nat_eq, string_eq, lookup}
use sentinal_rag.Base.Each.{each}
use sentinal_rag.Base.Text.{Text, text_eq}
use sentinal_rag.Base.Sort.{sort_desc}
use sentinal_rag.Chunking.{Chunk}
use sentinal_rag.Ingestion.{Row, Embedding, World}
use sentinal_rag.Ingestion.Elements.{element_from_dict}
use sentinal_rag.Ingestion.Activities.{Services, Activity, whole}

-- `DELETE FROM document_chunks WHERE document_version_id = …`, with the embeddings of the rows,
-- which go with them (`ON DELETE CASCADE`)
abbrev pub delete_chunks : ℕ → World → World
delete_chunks version_id w = record w {
  chunks = keep_if (λ r. not (r.version_id == version_id)) w.chunks;
  embeddings =
      keep_if (λ e. not (any (λ r. (r.version_id == version_id) && (r.id == e.chunk_id)) w.chunks))
        w.embeddings;
}

abbrev pub row_of : ℕ → ℕ → ℕ → Chunk → Row
row_of document_id version_id id c = record {
  id = id;
  document_id = document_id;
  version_id = version_id;
  chunk_index = c.chunk_index;
  content = c.text;
  token_count = c.token_count;
  page_number = c.page_number;
  section_title = c.section_title;
}

-- The loop of INSERTs.
unfoldable pub insert_chunks : ℕ → ℕ → List Chunk → World → World
insert_chunks document_id version_id [] w = w
insert_chunks document_id version_id (c ∷ cs) w =
    insert_chunks document_id version_id cs (record w {
      chunks = w.chunks ++ row_of document_id version_id w.next_id c ∷ [];
      next_id = suc w.next_id;
    })

-- What the activity reads, decodes and chunks before its transaction.
unfoldable pub read_chunks : Services → Text → Text → World → Option (List Chunk)
read_chunks s elements_uri strategy w = then_some (lookup elements_uri w.store) (λ blob.
    then_some (s.loads blob) (λ raw_elements.
      then_some (each (element_from_dict s.show) raw_elements)
        (λ elements. then_some (s.chunker strategy) (λ chunk. some (chunk elements)))))

abbrev pub replace_chunks : ℕ → ℕ → Option (List Chunk) → World → Option ℕ × World
replace_chunks document_id version_id none w = (none, w)
replace_chunks document_id version_id (some chunks) w =
    (some (length chunks), insert_chunks document_id version_id chunks (delete_chunks version_id w))

unfoldable pub chunk_and_persist : Services → ℕ → ℕ → Text → Text → Activity ℕ
chunk_and_persist s document_id version_id elements_uri strategy =
    whole (λ w. replace_chunks document_id version_id (read_chunks s elements_uri strategy w) w)

-- `SELECT … WHERE document_version_id = … ORDER BY chunk_index`
unfoldable pub rows_of : ℕ → World → List Row
rows_of version_id w =
    sort_desc (λ a b. ltb b.chunk_index a.chunk_index)
      (keep_if (λ r. r.version_id == version_id) w.chunks)

-- The idempotency wipe.
abbrev pub wipe : ℕ → String → World → World
wipe version_id model w = record w {
  embeddings =
      keep_if
        (λ e. not (
          str_eq e.embedding_model model
          && any (λ r. (r.id == e.chunk_id) && (r.version_id == version_id)) w.chunks))
        w.embeddings;
}

-- The loop of INSERTs; `none` is the error of `zip(…, strict=True)`.
unfoldable pub zip_embeddings : String → ℕ → List Row → List Text → Option (List Embedding)
zip_embeddings model column [] [] = some []
zip_embeddings model column [] (vec ∷ vecs) = none
zip_embeddings model column (r ∷ rs) [] = none
zip_embeddings model column (r ∷ rs) (vec ∷ vecs) =
    then_some (zip_embeddings model column rs vecs) (λ rest.
      some (record { chunk_id = r.id; embedding_model = model; column = column; vec = vec } ∷ rest))

abbrev pub add_embeddings : ℕ → Option (List Embedding) → World → Option ℕ × World
add_embeddings n none w = (none, w)
add_embeddings n (some new) w = (some n, record w { embeddings = w.embeddings ++ new })

-- From the rows that were read on.
unfoldable pub embed_rows : Services → String → ℕ → List Row → World → Option ℕ × World
embed_rows s model column rows w =
    if is_nil rows
    then (some 0, w)
    else add_embeddings (length rows)
        (then_some (s.embed model (map (λ r. r.content) rows)) (zip_embeddings model column rows)) w

-- Torn, only the wipe is done.
unfoldable pub embed_chunks : Services → ℕ → String → Activity ℕ
embed_chunks s version_id model = elim (s.dimension model) [
  | none ↦ whole (λ w. (none, w))
  | some dim ↦
      if (dim == 768) || (dim == 1024) || (dim == 1536)
      then record {
        body = λ w. embed_rows s model dim (rows_of version_id w) (wipe version_id model w);
        torn = wipe version_id model;
      }
      else whole (λ w. (none, w))
]
