-- ===== src/Ingestion/Versions.antt =====
-- The invariant of the tables, and that jobs and new versions keep it.
use sentinal_rag.Base.{
  ◌==◌, ==_iff, Bool-cases, All, All-imp, All-snoc, ℕ, ◌+◌, ◌≤◌, ◌<◌, max, ◌≡◌, refl, ◌≢◌, ◌⊎◌, inl,
  inr, false, ◌&&◌, Option, none, some, List, [], ◌∷◌, arith,
}
use sentinal_rag.Base.Sort.{AllPairs, AllPairs-snoc}
use sentinal_rag.Base.Dict.{nat_eq, Dict}
use sentinal_rag.Base.Text.{Text, text_beq, text_beq_iff, text_eq}
use sentinal_rag.Ingestion.{
  JobStatus, queued, running, completed, failed, Job, Version, World, update,
}
use sentinal_rag.Ingestion.Activities.{
  mark_job_running, mark_job_failed, find_version, max_version, upsert_from,
  upsert_document_version, processed_after, finalized, finalize_document,
}
use sentinal_rag.Ingestion.Runs.{Keeps, whole-Keeps}

-- Two versions have different ids; of one document they have different hashes and numbers.
abbrev pub Apart : Version → Version → Type 0
Apart a b =
    (a.id ≢ b.id)
    × ((a.document_id ≢ b.document_id)
        ⊎ ((a.content_hash ≢ b.content_hash) × (a.version_number ≢ b.version_number)))

abbrev pub IsBounded : Job → Type 0
IsBounded j = j.documents_processed ≤ j.documents_total

-- No job has processed more documents than it has, versions are apart, and their ids are below the
-- next one.
abbrev pub IsConsistent : World → Type 0
IsConsistent w =
    All (λ p. IsBounded p.1) w.jobs
    × AllPairs Apart w.versions
    × All (λ v. v.id < w.next_id) w.versions

pub All-update {ℓ} :
    {V : Type ℓ} (P : V → Type 0) (k : ℕ) (f : V → V) (d : Dict ℕ V)
    → ((v : V) → P v → P (f v))
    → All (λ p. P p.1) d
    → All (λ p. P p.1) (update k f d)
unfolding update
All-update P k f [] h a = tt
All-update P k f ((j, v) ∷ d) h a = elim (Bool-cases (j == k)) [
  | inl e ↦ rw e (h v a.0, All-update P k f d h a.1)
  | inr e ↦ rw e (a.0, All-update P k f d h a.1)
]

pub mark_job_running-Keeps : (j d : ℕ) → Keeps IsConsistent (mark_job_running j d)
unfolding mark_job_running
mark_job_running-Keeps j d =
    whole-Keeps _ _ (λ w h. (All-update IsBounded j _ w.jobs (λ x b. b) h.0, h.1, h.2))

pub mark_job_failed-Keeps : (j d : ℕ) → Keeps IsConsistent (mark_job_failed j d)
unfolding mark_job_failed
mark_job_failed-Keeps j d =
    whole-Keeps _ _ (λ w h. (All-update IsBounded j _ w.jobs (λ x b. b) h.0, h.1, h.2))

processed_after-bound :
    (st : JobStatus) (processed total : ℕ)
    → processed ≤ total
    → processed_after st processed total ≤ total
processed_after-bound completed n t h = h
processed_after-bound queued n t h = omega arith
processed_after-bound running n t h = omega arith
processed_after-bound failed n t h = omega arith

finalized-IsBounded : (n : ℕ) (j : Job) → IsBounded j → IsBounded (finalized n j)
unfolding finalized
finalized-IsBounded n j b = processed_after-bound j.status j.documents_processed j.documents_total b

pub finalize_document-Keeps : (j d n : ℕ) → Keeps IsConsistent (finalize_document j d n)
unfolding finalize_document
finalize_document-Keeps j d n =
    whole-Keeps _ _ (λ w h. (All-update IsBounded j _ w.jobs (finalized-IsBounded n) h.0, h.1, h.2))

no_match :
    (v : Version) (d : ℕ) (hash : Text)
    → ((v.document_id == d) && text_beq v.content_hash hash) ≡ false
    → (v.document_id ≢ d) ⊎ (v.content_hash ≢ hash)
no_match v d hash h = elim (Bool-cases (v.document_id == d)) [
  | inl e ↦ inr (λ same. ground (arith, e, h, (text_beq_iff v.content_hash hash).1 same))
  | inr e ↦ inl (λ same. cc (e, (==_iff v.document_id d).1 same))
]

find_version-none :
    (d : ℕ) (hash : Text) (vs : List Version)
    → find_version d hash vs ≡ none
    → All (λ v. (v.document_id ≢ d) ⊎ (v.content_hash ≢ hash)) vs
unfolding find_version
find_version-none d hash [] e = tt
find_version-none d hash (v ∷ vs) e =
    elim (Bool-cases ((v.document_id == d) && text_beq v.content_hash hash)) [
      | inl same ↦ let e' = rw same at e in cc e'
      | inr other ↦ (no_match v d hash other, find_version-none d hash vs (rw other at e))
    ]

max_version-bounds :
    (d m : ℕ) (vs : List Version)
    → max_version d vs ≤ m
    → All (λ v. (v.document_id ≢ d) ⊎ (v.version_number ≤ m)) vs
unfolding max_version
max_version-bounds d m [] h = tt
max_version-bounds d m (v ∷ vs) h = elim (Bool-cases (v.document_id == d)) [
  | inl e ↦
      let h' : max v.version_number (max_version d vs) ≤ m = rw e at h in
      (inr (omega (arith, h')), max_version-bounds d m vs (omega (arith, h')))
  | inr e ↦
      let h' : max_version d vs ≤ m = rw e at h in
      (inl (λ same. cc (e, (==_iff v.document_id d).1 same)), max_version-bounds d m vs h')
]

new_version-Apart :
    (d : ℕ) (hash uri : Text) (w : World) (vs : List Version) (m : ℕ)
    → All (λ v. v.id < w.next_id) vs
    → All (λ v. (v.document_id ≢ d) ⊎ (v.content_hash ≢ hash)) vs
    → All (λ v. (v.document_id ≢ d) ⊎ (v.version_number ≤ m)) vs
    → All
        (λ v. Apart v (record {
          id = w.next_id;
          document_id = d;
          version_number = m + 1;
          content_hash = hash;
          storage_uri = uri;
          parser_version = none;
        }))
        vs
new_version-Apart d hash uri w [] m a b c = tt
new_version-Apart d hash uri w (v ∷ vs) m a b c = (
  ((λ same. omega (arith, a.0, same)), apart b.0 c.0),
  new_version-Apart d hash uri w vs m a.1 b.1 c.1,
)
  where
    apart :
        (v.document_id ≢ d) ⊎ (v.content_hash ≢ hash)
        → (v.document_id ≢ d) ⊎ (v.version_number ≤ m)
        → (v.document_id ≢ d) ⊎ ((v.content_hash ≢ hash) × (v.version_number ≢ m + 1))
    apart (inl n) y = inl n
    apart (inr n) (inl k) = inl k
    apart (inr n) (inr le) = inr (n, (λ same. omega (arith, le, same)))

pub upsert-Keeps :
    (d : ℕ) (hash uri : Text) → Keeps IsConsistent (upsert_document_version d hash uri)
unfolding upsert_document_version
upsert-Keeps d hash uri = whole-Keeps _ _ (λ w h. kept w h (find_version d hash w.versions) refl)
  where
    kept :
        (w : World)
        → IsConsistent w
        → (o : Option ℕ) → find_version d hash w.versions ≡ o
        → IsConsistent (upsert_from d hash uri o w).1
    kept w h (some id) e = h
    kept w h none e = (
      h.0,
      AllPairs-snoc Apart w.versions _ h.1 (
          new_version-Apart d hash uri w w.versions (max_version d w.versions) h.2
            (find_version-none d hash w.versions e)
            (max_version-bounds d (max_version d w.versions) w.versions (omega arith))),
      All-snoc _ w.versions _ (All-imp w.versions (λ v lt. omega (arith, lt)) h.2) (omega arith),
    )
