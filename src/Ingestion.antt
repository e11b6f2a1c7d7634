-- ===== src/Ingestion.antt =====
-- Ingestion of a document, apps/temporal-worker/sentinelrag_worker/: the tables and the object
-- storage that the activities of activities/ingestion.py work on. Ids and hashes are numbers or
-- texts; the timestamps, the tenant (one tenant's session) and the error message are left out.
pub mod Elements
pub mod Activities
pub mod Persist
pub mod Workflow
pub mod Runs
pub mod Versions
pub mod Consistent
pub mod Chunks
pub mod Ends
use sentinal_rag.Base.{◌==◌, if◌then◌else◌, ℕ, String, Option, List, [], ◌∷◌}
use sentinal_rag.Base.Dict.{nat_eq, Dict}
use sentinal_rag.Base.Text.{Text, text_eq}

pub data JobStatus : Type 0 where
  queued running completed failed : JobStatus

-- `documents.status`
pub data DocumentStatus : Type 0 where
  pending processing indexed broken : DocumentStatus

-- A row of `ingestion_jobs`.
pub record Job : Type 0 where
  pub status : JobStatus
  pub documents_total : ℕ
  pub documents_processed : ℕ
  pub chunks_created : ℕ

-- A row of `document_versions`.
pub record Version : Type 0 where
  pub id : ℕ
  pub document_id : ℕ
  pub version_number : ℕ
  pub content_hash : Text
  pub storage_uri : Text
  pub parser_version : Option String

-- A row of `document_chunks`.
pub record Row : Type 0 where
  pub id : ℕ
  pub document_id : ℕ
  pub version_id : ℕ
  pub chunk_index : ℕ
  pub content : Text
  pub token_count : ℕ
  pub page_number : Option ℕ
  pub section_title : Option Text

-- A row of `chunk_embeddings`: the column that is not NULL, and its vector.
pub record Embedding : Type 0 where
  pub chunk_id : ℕ
  pub embedding_model : String
  pub column : ℕ
  pub vec : Text

-- `next_id` is the database's source of ids.
pub record World : Type 0 where
  pub jobs : Dict ℕ Job
  pub documents : Dict ℕ DocumentStatus
  pub versions : List Version
  pub chunks : List Row
  pub embeddings : List Embedding
  pub store : Dict Text Text
  pub next_id : ℕ

-- `UPDATE … WHERE id = k`, nothing on a missing row
unfoldable pub update {ℓ} : {V : Type ℓ} → ℕ → (V → V) → Dict ℕ V → Dict ℕ V
update k f [] = []
update k f ((j, v) ∷ rows) = if j == k then (j, f v) ∷ update k f rows else (j, v) ∷ update k f rows
