-- ===== src/Documents/Laws.antt =====
-- Uploads of one file, before and after it is indexed.
use sentinal_rag.Base.{
  ◌==◌, if◌then◌else◌, ==_iff, Bool-cases, any, keep_if-append, ℕ, suc, ◌≡◌, refl, sym, subst, ap,
  ◌∙◌, inl, inr, true, false, none, some, List, [], ◌∷◌, ◌++◌, map,
}
use sentinal_rag.Base.Dict.{nat_eq, insert}
use sentinal_rag.Base.Text.{Text, codes, text_beq, text_beq_iff, text_eq}
use sentinal_rag.Documents.{
  indexed, Document, State, multiple_results, Outside, Upload, with_checksum, get_by_checksum,
  is_indexed, create_and_start_job, deduplicated, storage_key, new_document, create, upload_found,
  upload,
}

-- The worker's UPDATE at the end of the ingestion of the document.
abbrev pub set_indexed : ℕ → Document → Document
set_indexed id d = if d.id == id then record d { status = indexed } else d

module _ (o : Outside) (u : Upload) where
  abbrev checksum : Text
  checksum = o.sha256 u.body

  -- The state after a new document was made.
  abbrev created : State → State
  created s = record s {
    store = insert (storage_key o u s.next_id) u.body s.store;
    documents = s.documents ++ new_document o u s.next_id ∷ [];
    jobs =
        s.jobs
        ++ record {
          document_id = s.next_id;
          is_completed = false;
          documents_total = 1;
          documents_processed = 0;
          workflow_id = some (codes "ingest-" ++ o.show (suc s.next_id));
        }
          ∷ [];
    workflows = s.workflows ++ (codes "ingest-" ++ o.show (suc s.next_id)) ∷ [];
    next_id = suc (suc s.next_id);
  }

  module _ (puts : o.puts ≡ true) (starts : o.starts ≡ true)
      (gentle : u.force_reindex ≡ false) where
    create-created : (s : State) → create o u s ≡ (none, created s)
    unfolding create create_and_start_job
    create-created s = rw (puts, starts) refl

    -- An upload of a file that no indexed document has makes a new one.
    upload-created :
        (s : State)
        → any (λ c. c == u.collection_id) s.collections ≡ true
        → upload_found o u (get_by_checksum checksum s) s ≡ create o u s
        → upload o u s ≡ (none, created s)
    unfolding upload
    upload-created s known e = rw (known, e, create-created s) refl

    with_checksum-created :
        (s : State)
        → with_checksum checksum (created s).documents
          ≡ with_checksum checksum s.documents ++ new_document o u s.next_id ∷ []
    with_checksum-created s =
        keep_if-append (λ d. text_beq d.checksum checksum) s.documents _
        ∙ rw ((text_beq_iff checksum checksum).1 refl) refl

    known-created :
        (s : State)
        → any (λ c. c == u.collection_id) s.collections ≡ true
        → any (λ c. c == u.collection_id) (created s).collections ≡ true
    known-created s known = known

    -- No row, or one that is not indexed, leads to a new document.
    upload_found-none :
        (s : State)
        → with_checksum checksum s.documents ≡ []
        → upload_found o u (get_by_checksum checksum s) s ≡ create o u s
    unfolding upload_found get_by_checksum
    upload_found-none s none_yet = rw none_yet refl

    upload_found-pending :
        (s : State) (d : Document)
        → with_checksum checksum s.documents ≡ d ∷ []
        → is_indexed d.status ≡ false
        → upload_found o u (get_by_checksum checksum s) s ≡ create o u s
    unfolding upload_found get_by_checksum
    upload_found-pending s d one waiting = rw (one, waiting, gentle) refl

    upload-several :
        (s : State) (d e : Document)
        → any (λ c. c == u.collection_id) s.collections ≡ true
        → with_checksum checksum s.documents ≡ d ∷ e ∷ []
        → (upload o u s).0 ≡ some multiple_results
    unfolding upload upload_found get_by_checksum
    upload-several s d e known two = rw (known, two) refl

    -- With the collection known and no row of the file's checksum, two uploads of the file before
    -- it is indexed both succeed, and a third one raises, since two rows have the checksum.
    pub upload-thrice :
        (s : State)
        → any (λ c. c == u.collection_id) s.collections ≡ true
        → with_checksum (o.sha256 u.body) s.documents ≡ []
        → ((upload o u s).0 ≡ none)
          × ((upload o u (upload o u s).1).0 ≡ none)
          × ((upload o u (upload o u (upload o u s).1).1).0 ≡ some multiple_results)
    upload-thrice s known none_yet =
        let one = upload-created s known (upload_found-none s none_yet) in
        let first : with_checksum checksum (created s).documents ≡ new_document o u s.next_id ∷ [] =
          with_checksum-created s ∙ rw none_yet refl in
        let two =
          upload-created (created s) known
            (upload_found-pending (created s) (new_document o u s.next_id) first refl) in
        let second = with_checksum-created (created s) ∙ rw first refl in
        (
          ap (λ r. r.0) one,
          rw one (ap (λ r. r.0) two),
          rw (one, two)
              (upload-several (created (created s)) (new_document o u s.next_id)
                (new_document o u (created s).next_id) known second),
        )

    with_checksum-indexed :
        (id : ℕ) (docs : List Document)
        → with_checksum checksum (map (set_indexed id) docs)
          ≡ map (set_indexed id) (with_checksum checksum docs)
    with_checksum-indexed id [] = refl
    with_checksum-indexed id (d ∷ docs) = elim (Bool-cases (d.id == id)) [
      | inl e ↦ elim (Bool-cases (text_beq d.checksum checksum)) [
        | inl f ↦ rw (e, f, with_checksum-indexed id docs, e) refl
        | inr f ↦ rw (e, f, with_checksum-indexed id docs) refl
      ]
      | inr e ↦ elim (Bool-cases (text_beq d.checksum checksum)) [
        | inl f ↦ rw (e, f, with_checksum-indexed id docs, e) refl
        | inr f ↦ rw (e, f, with_checksum-indexed id docs) refl
      ]
    ]

    upload-deduplicated :
        (s : State) (d : Document)
        → any (λ c. c == u.collection_id) s.collections ≡ true
        → with_checksum checksum s.documents ≡ d ∷ []
        → is_indexed d.status ≡ true
        → upload o u s ≡ (none, deduplicated o d s)
    unfolding upload upload_found get_by_checksum
    upload-deduplicated s d known one done = rw (known, one, done, gentle) refl

    -- The state after the worker has indexed the document of the upload.
    abbrev pub after_indexing : State → State
    after_indexing s =
        let t = (upload o u s).1 in record t { documents = map (set_indexed s.next_id) t.documents }

    -- An upload in this state changes no document, stored blob or workflow.
    abbrev pub IsNoop : State → Type 0
    IsNoop t =
        ((upload o u t).0 ≡ none)
        × ((upload o u t).1.documents ≡ t.documents)
        × ((upload o u t).1.store ≡ t.store)
        × ((upload o u t).1.workflows ≡ t.workflows)

    deduplicated-IsNoop :
        (t : State) (d : Document) → upload o u t ≡ (none, deduplicated o d t) → IsNoop t
    unfolding deduplicated
    deduplicated-IsNoop t d e = rw e (refl, refl, refl, refl)

    -- With the collection known and no row of the file's checksum, an upload makes a document;
    -- once that is indexed, an upload of the same file succeeds and changes no document, stored
    -- blob or workflow.
    pub upload-IsNoop :
        (s : State)
        → any (λ c. c == u.collection_id) s.collections ≡ true
        → with_checksum (o.sha256 u.body) s.documents ≡ []
        → IsNoop (after_indexing s)
    upload-IsNoop s known none_yet =
        let id = s.next_id in
        let d : Document = record (new_document o u id) { status = indexed } in
        let t : State = record (created s) {
          documents = map (set_indexed id) (created s).documents;
        } in
        let one : upload o u s ≡ (none, created s) =
          upload-created s known (upload_found-none s none_yet) in
        let only : with_checksum checksum t.documents ≡ d ∷ [] =
          with_checksum-indexed id (created s).documents
          ∙ ap (map (set_indexed id)) (with_checksum-created s)
          ∙ rw (none_yet, (==_iff id id).1 refl) refl in
        subst IsNoop
          (sym (ap (λ r. record r.1 { documents = map (set_indexed id) r.1.documents }) one))
          (deduplicated-IsNoop t d (upload-deduplicated t d known only refl))
