-- ===== src/Audit/Reconciliation.antt =====
-- The daily reconciliation, packages/shared/python/sentinelrag_shared/audit/reconciliation.py, of
-- one tenant. Event ids are numbers. The archive (S3) is an interface: a listing and a put. A put
-- that raises ends the activity, and is left out.
pub mod Sets
pub mod Laws
use sentinal_rag.Base.{
  ltb, ◌==◌, if◌then◌else◌, length, take, is_nil, keep_if, ℕ, suc, ◌≡◌, Bool, false, ◌&&◌, ◌||◌,
  not, Option, none, some, List, [], ◌∷◌,
}

-- `i in xs`
unfoldable pub elem : ℕ → List ℕ → Bool
elem i [] = false
elem i (x ∷ xs) = (x == i) || elem i xs

unfoldable pub place_once : ℕ → List ℕ → List ℕ
place_once i [] = i ∷ []
place_once i (x ∷ xs) =
    let rest = place_once i xs in
    if ltb i x then i ∷ x ∷ xs else if i == x then x ∷ xs else x ∷ rest

-- `sorted(set(xs))`
unfoldable pub sorted_set : List ℕ → List ℕ
unfolding place_once
sorted_set [] = []
sorted_set (x ∷ xs) = place_once x (sorted_set xs)

pub record DriftCounts : Type 0 where
  pub missing_in_s3 : List ℕ
  pub missing_in_pg : List ℕ
  pub in_both : ℕ

unfoldable pub diff_event_sets : List ℕ → List ℕ → DriftCounts
unfolding elem sorted_set
diff_event_sets pg_ids s3_ids = record {
  missing_in_s3 = sorted_set (keep_if (λ i. not (elem i s3_ids)) pg_ids);
  missing_in_pg = sorted_set (keep_if (λ i. not (elem i pg_ids)) s3_ids);
  in_both = length (sorted_set (keep_if (λ i. elem i s3_ids) pg_ids));
}

pub record Archive (Event : Type 0) : Type 1 where
  pub Objects : Type 0
  pub event_ids : Objects → List ℕ
  pub put : Event → Objects → Objects
  pub event_id : Event → ℕ
  -- The listing shows the event that was put beside all others.
  pub put_lists :
      (e : Event) (a : Objects) (i : ℕ)
      → elem i (event_ids (put e a)) ≡ ((event_id e == i) || elem i (event_ids a))

pub record TenantReconcileResult : Type 0 where
  pub pg_count : ℕ
  pub s3_count : ℕ
  pub missing_in_s3_count : ℕ
  pub missing_in_pg_count : ℕ
  pub backfilled : ℕ

module _ {Event : Type 0} (A : Archive Event) where
  -- The loop over the events to upload: what it counts and the archive after it. `fetch` is
  -- `fetch_pg_event`, `none` if the row is gone.
  unfoldable pub backfill : (ℕ → Option Event) → List ℕ → ℕ → A.Objects → ℕ × A.Objects
  backfill fetch [] count a = (count, a)
  backfill fetch (i ∷ ids) count a = elim (fetch i) [
    | none ↦ backfill fetch ids count a
    | some event ↦ backfill fetch ids (suc count) (A.put event a)
  ]

  unfoldable pub reconcile_one_tenant :
      List ℕ → (ℕ → Option Event) → Bool → ℕ → A.Objects → TenantReconcileResult × A.Objects
  unfolding diff_event_sets backfill
  reconcile_one_tenant pg_ids fetch backfill_missing_in_s3 max_backfill a =
      let s3_ids = A.event_ids a in
      let drift = diff_event_sets pg_ids s3_ids in
      let done =
        if backfill_missing_in_s3 && (not (is_nil drift.missing_in_s3) && ltb 0 max_backfill)
        then backfill fetch (take max_backfill drift.missing_in_s3) 0 a
        else (0, a) in
      (
        record {
          pg_count = length pg_ids;
          s3_count = length s3_ids;
          missing_in_s3_count = length drift.missing_in_s3;
          missing_in_pg_count = length drift.missing_in_pg;
          backfilled = done.0;
        },
        done.1,
      )
