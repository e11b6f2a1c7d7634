-- ===== src/Ingestion/Activities.antt =====
-- The activities of activities/ingestion.py. Each is the statements that it runs and the part
-- that an attempt leaves behind when it is torn between two of its transactions or writes. The
-- hash, the parser, the embedder and JSON are parameters.
use sentinal_rag.Base.{
  ◌==◌, if◌then◌else◌, or_else, then_some, map_some, is_nil, keep_if, ℕ, suc, ◌+◌, min, max, String,
  ◌&&◌, not, Option, none, some, List, [], ◌∷◌, ◌++◌, map,
}
use sentinal_rag.Base.Dict.{nat_eq, string_eq, Dict, lookup, insert}
use sentinal_rag.Base.Text.{Text, codes, text_beq, text_eq, strip, join}
use sentinal_rag.Chunking.{ParsedElement, Chunk, blank_line}
use sentinal_rag.Ingestion.{
  JobStatus, running, completed, failed, processing, indexed, broken, Job, Version, World, update,
}
use sentinal_rag.Ingestion.Elements.{element_to_dict}
use sentinal_rag.Base.Json.{Json}

pub record Services : Type 0 where
  pub sha256 : Text → Text
  -- `UnstructuredParser(strategy=…).parse(blob=…, mime_type=…)`
  pub parse : Text → Text → Text → Option (List ParsedElement)
  -- `json.dumps(…, default=str)` and `json.loads`
  pub dumps : List (Dict String Json) → Text
  pub loads : Text → Option (List (Dict String Json))
  -- `str` of a value read from JSON
  pub show : Json → Text
  -- `get_chunker(ChunkingStrategy(…)).chunk`; `none` is the `ValueError` of an unknown strategy
  pub chunker : Text → Option (List ParsedElement → List Chunk)
  pub dimension : String → Option ℕ
  -- `embed`, each vector formatted by `_format_vector`
  pub embed : String → List Text → Option (List Text)

-- `none` is an exception; then nothing of the transaction is written.
pub record Activity (A : Type 0) : Type 0 where
  pub body : World → Option A × World
  pub torn : World → World

-- An activity of one transaction.
abbrev pub whole : {A : Type 0} → (World → Option A × World) → Activity A
whole f = record { body = f; torn = λ w. w }

unfoldable pub mark_job_running : ℕ → ℕ → Activity Unit
mark_job_running job_id document_id = whole (λ w. (
  some tt,
  record w {
    jobs = update job_id (λ j. record j { status = running }) w.jobs;
    documents = update document_id (λ _. processing) w.documents;
  },
))

unfoldable pub mark_job_failed : ℕ → ℕ → Activity Unit
mark_job_failed job_id document_id = whole (λ w. (
  some tt,
  record w {
    jobs = update job_id (λ j. record j { status = failed }) w.jobs;
    documents = update document_id (λ _. broken) w.documents;
  },
))

-- The content hash; the size is only reported.
unfoldable pub download_and_hash : Services → Text → Activity Text
download_and_hash s storage_uri = whole (λ w. (map_some s.sha256 (lookup storage_uri w.store), w))

-- The row that the first SELECT finds, and `COALESCE(MAX(version_number), 0)`.
unfoldable pub find_version : ℕ → Text → List Version → Option ℕ
find_version document_id content_hash [] = none
find_version document_id content_hash (v ∷ vs) =
    let rest = find_version document_id content_hash vs in
    if (v.document_id == document_id) && text_beq v.content_hash content_hash
    then some v.id
    else rest

unfoldable pub max_version : ℕ → List Version → ℕ
max_version document_id [] = 0
max_version document_id (v ∷ vs) =
    let rest = max_version document_id vs in
    if v.document_id == document_id then max v.version_number rest else rest

abbrev pub insert_version : ℕ → Text → Text → World → World
insert_version document_id content_hash storage_uri w = record w {
  versions =
      w.versions
      ++ record {
        id = w.next_id;
        document_id = document_id;
        version_number = max_version document_id w.versions + 1;
        content_hash = content_hash;
        storage_uri = storage_uri;
        parser_version = none;
      }
        ∷ [];
  next_id = suc w.next_id;
}

-- From what the first SELECT found.
abbrev pub upsert_from : ℕ → Text → Text → Option ℕ → World → Option ℕ × World
upsert_from document_id content_hash storage_uri (some id) w = (some id, w)
upsert_from document_id content_hash storage_uri none w =
    (some w.next_id, insert_version document_id content_hash storage_uri w)

unfoldable pub upsert_document_version : ℕ → Text → Text → Activity ℕ
upsert_document_version document_id content_hash storage_uri = whole (λ w.
    upsert_from document_id content_hash storage_uri
      (find_version document_id content_hash w.versions) w)

-- What stands before the last "/", if there is one.
abbrev before_slash : Text → Option Text
before_slash [] = none
before_slash (c ∷ t) = elim (before_slash t) [
  | some p ↦ some (c ∷ p)
  | none ↦ if c == 47 then some [] else none
]

-- `_raw_text_key`, `_parsed_elements_key`
unfoldable pub raw_text_key : Text → Text
raw_text_key storage_uri = or_else (before_slash storage_uri) storage_uri ++ codes "/raw.txt"

unfoldable pub parsed_elements_key : Text → Text
parsed_elements_key storage_uri =
    or_else (before_slash storage_uri) storage_uri ++ codes "/parsed-elements.json"

-- `"\n\n".join(e.text.strip() for e in elements if e.text.strip())`
unfoldable pub raw_text : List ParsedElement → Text
raw_text elements =
    join blank_line (keep_if (λ t. not (is_nil t)) (map (λ e. strip e.text) elements))

abbrev pub put : Text → Text → World → World
put key blob w = record w { store = insert key blob w.store }

-- The first and both of the two writes.
abbrev pub put_raw : Text → Option (List ParsedElement) → World → World
put_raw storage_uri none w = w
put_raw storage_uri (some elements) w = put (raw_text_key storage_uri) (raw_text elements) w

abbrev pub put_parsed :
    Services → Text → Option (List ParsedElement) → World → Option (Text × Text) × World
put_parsed s storage_uri none w = (none, w)
put_parsed s storage_uri (some elements) w = (
  some (raw_text_key storage_uri, parsed_elements_key storage_uri),
  put (parsed_elements_key storage_uri) (s.dumps (map element_to_dict elements))
      (put (raw_text_key storage_uri) (raw_text elements) w),
)

-- The uris of the raw text and of the elements; torn, only the raw text is there.
unfoldable pub parse_document : Services → Text → Text → Text → Activity (Text × Text)
parse_document s storage_uri mime_type strategy =
    let parsed : World → Option (List ParsedElement) =
      λ w. then_some (lookup storage_uri w.store) (λ blob. s.parse strategy blob mime_type) in
    record {
      body = λ w. put_parsed s storage_uri (parsed w) w;
      torn = λ w. put_raw storage_uri (parsed w) w;
    }

unfoldable pub update_document_version_storage_uri : ℕ → Text → Activity Unit
update_document_version_storage_uri version_id raw_text_uri = whole (λ w. (
  some tt,
  record w {
    versions =
        map
          (λ v.
            if v.id == version_id
            then record v { storage_uri = raw_text_uri; parser_version = some "unstructured" }
            else v)
          w.versions;
  },
))

-- The CASE on the job's status.
abbrev pub processed_after : JobStatus → ℕ → ℕ → ℕ
processed_after completed processed total = processed
processed_after _ processed total = min total (processed + 1)

-- The row after the UPDATE of the job.
unfoldable pub finalized : ℕ → Job → Job
finalized chunks_created j = record j {
  status = completed;
  documents_processed = processed_after j.status j.documents_processed j.documents_total;
  chunks_created = chunks_created;
}

unfoldable pub finalize_document : ℕ → ℕ → ℕ → Activity Unit
finalize_document job_id document_id chunks_created = whole (λ w. (
  some tt,
  record w {
    jobs = update job_id (finalized chunks_created) w.jobs;
    documents = update document_id (λ _. indexed) w.documents;
  },
))
