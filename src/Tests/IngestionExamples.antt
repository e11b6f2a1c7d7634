-- ===== src/Tests/IngestionExamples.antt =====
-- The theorems on ingestion at concrete inputs.
use sentinal_rag.Base.{◌≡◌, refl, inl, inr, none, some, List, [], ◌∷◌, arith}
use sentinal_rag.Base.Dict.{nat_eq, string_eq, lookup}
use sentinal_rag.Base.Each.{each}
use sentinal_rag.Base.Json.{field, array, cons, nil, text, opaque, end, dumped_fields}
use sentinal_rag.Base.Text.{codes, text_eq}
use sentinal_rag.Chunking.{table, ParsedElement, Chunk}
use sentinal_rag.Ingestion.{queued, pending, Row}
use sentinal_rag.Ingestion.Elements.{
  element_to_dict, element_from_dict, reread, element_from_dict-reread,
}
use sentinal_rag.Ingestion.Activities.{Services}
use sentinal_rag.Ingestion.Persist.{insert_chunks, read_chunks, chunk_and_persist}
use sentinal_rag.Ingestion.Workflow.{
  fine, lost, unreported, Sys, try_once, execute_activity, Payload, run,
}
use sentinal_rag.Ingestion.Versions.{IsConsistent}
use sentinal_rag.Ingestion.Consistent.{run-IsConsistent}
use sentinal_rag.Ingestion.Chunks.{IsStored, chunk_and_persist-IsStored}
use sentinal_rag.Ingestion.Ends.Outcome.{IsEnded, run-IsEnded}

abbrev a_table : ParsedElement
a_table = record {
  text = codes "totals";
  element_type = table;
  page_number = some 3;
  section_title = none;
  table_html = some (codes "<table>");
  -- a list, and an object of the parser
  metadata =
      field "languages" (array (cons (text (codes "eng")) nil))
        (field "coordinates" (opaque (codes "<Coordinates>")) end);
}

element_from_dict-reread_example :
    element_from_dict (λ v. codes "1") (reread (element_to_dict a_table))
    ≡ some (record a_table { metadata = dumped_fields a_table.metadata })
element_from_dict-reread_example = element_from_dict-reread (λ v. codes "1") a_table

abbrev one_chunk : Chunk
one_chunk = record {
  text = codes "totals";
  chunk_index = 0;
  token_count = 6;
  page_number = some 3;
  section_title = none;
  table_html = none;
}

abbrev services : Services
services = record {
  sha256 = λ t. t;
  parse = λ strategy blob mime. some (a_table ∷ []);
  dumps = λ items. codes "[]";
  loads = λ t. some [];
  show = λ v. codes "1";
  chunker = λ strategy. some (λ elements. one_chunk ∷ []);
  dimension = λ model. some 768;
  embed = λ model texts. some texts;
}

abbrev payload : Payload
payload = record {
  job_id = 1;
  document_id = 2;
  storage_uri = codes "d/f";
  mime_type = codes "text/plain";
  parsing_strategy = codes "fast";
  chunking_strategy = codes "semantic";
  embedding_model = "small";
}

abbrev an_old_row : Row
an_old_row = record {
  id = 4;
  document_id = 2;
  version_id = 7;
  chunk_index = 0;
  content = codes "old";
  token_count = 3;
  page_number = none;
  section_title = none;
}

-- A queued job, its document with one version, and its file; the first attempts meet faults.
abbrev queue : Sys
queue = record {
  world = record {
    jobs =
        (
          1,
          record {
            status = queued;
            documents_total = 1;
            documents_processed = 0;
            chunks_created = 0;
          },
        )
        ∷ [];
    documents = (2, pending) ∷ [];
    versions =
        record {
          id = 7;
          document_id = 2;
          version_number = 1;
          content_hash = codes "h";
          storage_uri = codes "d/e";
          parser_version = none;
        }
        ∷ [];
    chunks = an_old_row ∷ [];
    embeddings = [];
    store = (codes "d/f", codes "totals") ∷ [];
    next_id = 8;
  };
  faults = lost ∷ fine ∷ unreported ∷ [];
}

run-IsConsistent_example : IsConsistent (run services payload queue).1.world
run-IsConsistent_example =
    run-IsConsistent services payload queue ((omega arith, tt), (tt, tt), (omega arith, tt))

run-IsEnded_example : IsEnded services payload (run services payload queue)
unfolding lookup
run-IsEnded_example =
    run-IsEnded services payload queue (refl, refl)
      (inr (inl refl), (inl refl, (inr (inl refl), tt)))

stored_once :
    (execute_activity 2 (chunk_and_persist services 2 7 (codes "d/f") (codes "semantic")) queue).0
    ≡ some 1
unfolding execute_activity try_once chunk_and_persist read_chunks lookup each insert_chunks
stored_once = refl

chunk_and_persist-IsStored_example :
    (cs : List Chunk) × IsStored services 2 7
      (codes "d/f")
      (codes "semantic")
      queue
      1
      cs
      (execute_activity 2
        (chunk_and_persist services 2 7 (codes "d/f") (codes "semantic"))
        queue).1.world
chunk_and_persist-IsStored_example =
    chunk_and_persist-IsStored services 2 7 (codes "d/f") (codes "semantic") queue 2 1 stored_once
