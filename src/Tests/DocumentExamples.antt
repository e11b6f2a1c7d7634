-- ===== src/Tests/DocumentExamples.antt =====
-- The theorems on uploads at concrete inputs.
use sentinal_rag.Base.{◌≡◌, refl, true, false, none, some, [], ◌∷◌}
use sentinal_rag.Base.Text.{codes}
use sentinal_rag.Documents.{indexed, State, multiple_results, Outside, Upload, upload}
use sentinal_rag.Documents.Laws.{upload-thrice, after_indexing, IsNoop, upload-IsNoop}

abbrev outside : Outside
outside = record {
  sha256 = λ t. t;
  tenant = codes "t1";
  token = λ n. codes "a";
  show = λ n. codes "d";
  lower = λ t. t;
  puts = true;
  starts = true;
}

abbrev a_file : Upload
a_file = record {
  collection_id = 3;
  filename = codes "notes.txt";
  mime_type = codes "text/plain";
  body = codes "hello";
  force_reindex = false;
}

-- A tenant with one collection and another file.
abbrev some_documents : State
some_documents = record {
  collections = 3 ∷ [];
  documents =
      record {
        id = 1;
        collection_id = 3;
        checksum = codes "other";
        source_uri = codes "k";
        mime_type = codes "text/plain";
        status = indexed;
      }
      ∷ [];
  jobs = [];
  store = [];
  workflows = [];
  next_id = 2;
}

upload-thrice_example :
    ((upload outside a_file some_documents).0 ≡ none)
    × ((upload outside a_file (upload outside a_file some_documents).1).0 ≡ none)
    × ((upload outside a_file (upload outside a_file (upload outside a_file some_documents).1).1).0
        ≡ some multiple_results)
upload-thrice_example = upload-thrice outside a_file refl refl refl some_documents refl refl

upload-IsNoop_example :
    IsNoop outside a_file refl refl refl
      (after_indexing outside a_file refl refl refl some_documents)
upload-IsNoop_example = upload-IsNoop outside a_file refl refl refl some_documents refl refl
