-- ===== src/Documents.antt =====
-- Uploads, apps/api/app/services/document_service.py with `get_by_checksum` of
-- apps/api/app/db/repositories/documents.py, for one tenant. The rows of an upload that raises are
-- rolled back by its session, what it stored stays. Titles, sensitivity, strategies and metadata
-- are left out; fresh ids come from a counter, and `show` prints an id.
pub mod Laws
use sentinal_rag.Base.{
  ◌==◌, if◌then◌else◌, or_else, map_some, is_nil, keep_if, any, ℕ, suc, Bool, true, false, ◌&&◌,
  not, Option, none, some, List, [], ◌∷◌, ◌++◌, map,
}
use sentinal_rag.Base.Dict.{nat_eq, Dict, insert}
use sentinal_rag.Base.Text.{Text, codes, text_beq, text_eq}

pub data Status : Type 0 where
  pending indexed other : Status

-- A row of `documents`.
pub record Document : Type 0 where
  pub id : ℕ
  pub collection_id : ℕ
  pub checksum : Text
  pub source_uri : Text
  pub mime_type : Text
  pub status : Status

-- A row of `ingestion_jobs`: whether it is completed, and the workflow that was started for it.
pub record UploadJob : Type 0 where
  pub document_id : ℕ
  pub is_completed : Bool
  pub documents_total : ℕ
  pub documents_processed : ℕ
  pub workflow_id : Option Text

pub record State : Type 0 where
  pub collections : List ℕ
  pub documents : List Document
  pub jobs : List UploadJob
  pub store : Dict Text Text
  pub workflows : List Text
  pub next_id : ℕ

pub data Error : Type 0 where
  not_found : Error
  validation_failed : Error
  multiple_results : Error
  storage_error : Error
  temporal_unavailable : Error

-- What the outside answers, and the functions that are not in src/.
pub record Outside : Type 0 where
  pub sha256 : Text → Text
  -- the tenant's id, and the random token of a version
  pub tenant : Text
  pub token : ℕ → Text
  pub show : ℕ → Text
  pub lower : Text → Text
  pub puts : Bool
  pub starts : Bool

pub record Upload : Type 0 where
  pub collection_id : ℕ
  pub filename : Text
  pub mime_type : Text
  pub body : Text
  pub force_reindex : Bool

-- The rows that the query of `get_by_checksum` selects, and `scalar_one_or_none`.
abbrev pub with_checksum : Text → List Document → List Document
with_checksum checksum docs = keep_if (λ d. text_beq d.checksum checksum) docs

pub data Found : Type 0 where
  no_row : Found
  one_row : Document → Found
  several : Found

abbrev pub scalar_one_or_none : List Document → Found
scalar_one_or_none [] = no_row
scalar_one_or_none (d ∷ []) = one_row d
scalar_one_or_none (d ∷ e ∷ ds) = several

unfoldable pub get_by_checksum : Text → State → Found
get_by_checksum checksum s = scalar_one_or_none (with_checksum checksum s.documents)

abbrev pub is_indexed : Status → Bool
is_indexed pending = false
is_indexed indexed = true
is_indexed other = false

-- `_MIME_TO_EXT`
unfoldable pub mime_to_ext : Text → Option Text
mime_to_ext mime =
    if text_beq mime (codes "application/pdf")
    then some (codes "pdf")
    else if text_beq mime
        (codes "application/vnd.openxmlformats-officedocument.wordprocessingml.document")
    then some (codes "docx")
    else if text_beq mime (codes "application/msword")
    then some (codes "doc")
    else if text_beq mime (codes "text/html")
    then some (codes "html")
    else if text_beq mime (codes "text/markdown")
    then some (codes "md")
    else if text_beq mime (codes "text/plain")
    then some (codes "txt")
    else if text_beq mime (codes "text/csv")
    then some (codes "csv")
    else none

-- What stands after the last ".", if there is one.
abbrev pub after_dot : Text → Option Text
after_dot [] = none
after_dot (c ∷ t) = elim (after_dot t) [ some e ↦ some e | none ↦ if c == 46 then some t else none ]

module _ (o : Outside) where
  -- `_extension_for`
  unfoldable pub extension_for : Text → Text → Text
  extension_for mime filename =
      or_else (mime_to_ext mime) (or_else (map_some o.lower (after_dot filename)) (codes "bin"))

  -- `_create_and_start_job` with `_start_ingestion_workflow`, for the document's id.
  unfoldable pub create_and_start_job : ℕ → State → Option Error × State
  create_and_start_job document_id s =
      let workflow_id = codes "ingest-" ++ o.show s.next_id in
      if not o.starts then (some temporal_unavailable, s) else (
        none,
        record s {
          jobs =
              s.jobs
              ++ record {
                document_id = document_id;
                is_completed = false;
                documents_total = 1;
                documents_processed = 0;
                workflow_id = some workflow_id;
              }
                ∷ [];
          workflows = s.workflows ++ workflow_id ∷ [];
          next_id = suc s.next_id;
        },
      )

  -- The no-op job of a deduplicated upload.
  unfoldable pub deduplicated : Document → State → State
  deduplicated d s = record s {
    jobs =
        s.jobs
        ++ record {
          document_id = d.id;
          is_completed = true;
          documents_total = 1;
          documents_processed = 1;
          workflow_id = none;
        }
          ∷ [];
  }

  abbrev pub set_pending : ℕ → Document → Document
  set_pending id d = if d.id == id then record d { status = pending } else d

  -- The reindexing of an existing document.
  unfoldable pub reindex : Document → State → Option Error × State
  reindex d s =
      if is_nil d.source_uri
      then (some validation_failed, s)
      else create_and_start_job d.id (record s { documents = map (set_pending d.id) s.documents })

  abbrev pub storage_key : Upload → ℕ → Text
  storage_key u id =
      o.tenant
      ++ codes "/documents/"
      ++ o.show id
      ++ codes "/versions/"
      ++ o.token id
      ++ codes "/original."
      ++ extension_for u.mime_type u.filename

  abbrev pub new_document : Upload → ℕ → Document
  new_document u id = record {
    id = id;
    collection_id = u.collection_id;
    checksum = o.sha256 u.body;
    source_uri = storage_key u id;
    mime_type = u.mime_type;
    status = pending;
  }

  -- A new document: the blob, the row and the job.
  unfoldable pub create : Upload → State → Option Error × State
  create u s =
      if not o.puts
      then (some storage_error, s)
      else create_and_start_job s.next_id (record s {
        store = insert (storage_key u s.next_id) u.body s.store;
        documents = s.documents ++ new_document u s.next_id ∷ [];
        next_id = suc s.next_id;
      })

  -- From what `get_by_checksum` found.
  unfoldable pub upload_found : Upload → Found → State → Option Error × State
  upload_found u several s = (some multiple_results, s)
  upload_found u no_row s = create u s
  upload_found u (one_row d) s =
      if is_indexed d.status && not u.force_reindex
      then (none, deduplicated d s)
      else if u.force_reindex
      then reindex d s
      else create u s

  -- The session's rollback after an error: the rows are as before, the stored blob stays.
  abbrev pub settle : State → Option Error × State → Option Error × State
  settle s (none, t) = (none, t)
  settle s (some e, t) = (some e, record s { store = t.store; next_id = t.next_id })

  -- `DocumentService.upload`
  unfoldable pub upload : Upload → State → Option Error × State
  upload u s =
      if any (λ c. c == u.collection_id) s.collections
      then settle s (upload_found u (get_by_checksum (o.sha256 u.body) s) s)
      else (some not_found, s)
