-- ===== src/Audit/Reconciliation/Laws.antt =====
-- What a reconciliation of one tenant leaves in the archive.
use sentinal_rag.Audit.Reconciliation.Sets.{diff_event_sets_lem}
use sentinal_rag.Base.{
  ltb, ◌==◌, if◌then◌else◌, Bool-cases, Option-cases, length, take, is_nil, All, length-take,
  take_all, ℕ, zero, suc, ◌+◌, ◌≤◌, min, ◌≡◌, refl, ◌∙◌, inl, inr, Bool, true, false, ◌&&◌, not,
  Option, some, List, [], ◌∷◌, arith,
}
use sentinal_rag.Audit.Reconciliation.{
  elem, diff_event_sets, Archive, backfill, reconcile_one_tenant,
}

module _ {Event : Type 0} (A : Archive Event) (fetch : ℕ → Option Event) where
  -- The listing after the loop: what was there, and the ids of the events that were fetched.
  backfill-keeps :
      (ids : List ℕ) (n : ℕ) (a : A.Objects) (i : ℕ)
      → elem i (A.event_ids a) ≡ true
      → elem i (A.event_ids (backfill A fetch ids n a).1) ≡ true
  unfolding backfill
  backfill-keeps [] n a i h = h
  backfill-keeps (j ∷ ids) n a i h = elim (Option-cases (fetch j)) [
    | inl gone ↦ rw (backfill, gone) (backfill-keeps ids n a i h)
    | inr (e, found) ↦
        rw (backfill, found)
          (backfill-keeps ids (suc n) (A.put e a) i (ground (arith, A.put_lists e a i)))
  ]

  backfill-adds :
      (ids : List ℕ) (n : ℕ) (a : A.Objects) (i : ℕ)
      → All (λ j. (e : Event) × (fetch j ≡ some e) × (A.event_id e ≡ j)) ids
      → elem i ids ≡ true
      → elem i (A.event_ids (backfill A fetch ids n a).1) ≡ true
  unfolding backfill elem
  backfill-adds [] n a i h m = cc
  backfill-adds (j ∷ ids) n a i h m =
      rw (backfill, h.0.1)
        (elim (Bool-cases (j == i)) [
          | inl eq ↦
              backfill-keeps ids (suc n) (A.put h.0.0 a) i (ground (arith, A.put_lists h.0.0 a i))
          | inr ne ↦ backfill-adds ids (suc n) (A.put h.0.0 a) i h.1 (ground arith)
        ])

  backfill-count :
      (ids : List ℕ) (n : ℕ) (a : A.Objects) → (backfill A fetch ids n a).0 ≤ n + length ids
  unfolding backfill
  backfill-count [] n a = omega arith
  backfill-count (j ∷ ids) n a = elim (Option-cases (fetch j)) [
    | inl gone ↦ rw (backfill, gone) (omega (arith, backfill-count ids n a))
    | inr (e, found) ↦ rw (backfill, found) (omega (arith, backfill-count ids (suc n) (A.put e a)))
  ]

  -- The two guards on an empty list and a bound of 0 change nothing.
  reconcile_loop :
      (pg : List ℕ) (enabled : Bool) (max_backfill : ℕ) (a : A.Objects)
      → (if enabled
            && (not (is_nil (diff_event_sets pg (A.event_ids a)).missing_in_s3)
                && ltb 0 max_backfill)
          then backfill A fetch
              (take max_backfill (diff_event_sets pg (A.event_ids a)).missing_in_s3)
              0
              a
          else (0, a))
        ≡ (if enabled
            then backfill A fetch
                (take max_backfill (diff_event_sets pg (A.event_ids a)).missing_in_s3)
                0
                a
            else (0, a))
  unfolding backfill
  reconcile_loop pg enabled max_backfill a =
      cut enabled max_backfill (diff_event_sets pg (A.event_ids a)).missing_in_s3
    where
      cut :
          (on : Bool) (m : ℕ) (ids : List ℕ)
          → (if on && (not (is_nil ids) && ltb 0 m)
              then backfill A fetch (take m ids) 0 a
              else (0, a))
            ≡ (if on then backfill A fetch (take m ids) 0 a else (0, a))
      cut false m ids = refl
      cut true zero [] = refl
      cut true zero (i ∷ ids) = refl
      cut true (suc m) [] = refl
      cut true (suc m) (i ∷ ids) = ground arith

  -- If every missing event can still be fetched and the bound allows it, then after an enabled
  -- reconciliation the archive lists every event that Postgres listed.
  pub reconcile_one_tenant-restores :
      (pg : List ℕ) (max_backfill : ℕ) (a : A.Objects) (i : ℕ)
      → All
          (λ j. (e : Event) × (fetch j ≡ some e) × (A.event_id e ≡ j))
          (diff_event_sets pg (A.event_ids a)).missing_in_s3
      → length (diff_event_sets pg (A.event_ids a)).missing_in_s3 ≤ max_backfill
      → elem i pg ≡ true
      → elem i (A.event_ids (reconcile_one_tenant A pg fetch true max_backfill a).1) ≡ true
  unfolding reconcile_one_tenant
  reconcile_one_tenant-restores pg max_backfill a i h fits listed =
      let missing = (diff_event_sets pg (A.event_ids a)).missing_in_s3 in
      rw (reconcile_loop pg true max_backfill a, take_all max_backfill missing fits)
        (elim (Bool-cases (elem i (A.event_ids a))) [
          | inl there ↦ backfill-keeps missing 0 a i there
          | inr lost ↦
              backfill-adds missing 0 a i h
                ((diff_event_sets_lem pg (A.event_ids a)).2 i ∙ rw (listed, lost) refl)
        ])

  -- A reconciliation uploads at most as many events as it may and as are missing, and the archive
  -- lists every event it listed before.
  reconcile_one_tenant-bounded :
      (pg : List ℕ) (enabled : Bool) (max_backfill : ℕ) (a : A.Objects) (i : ℕ)
      → ((reconcile_one_tenant A pg fetch enabled max_backfill a).0.backfilled
          ≤ min max_backfill
              (reconcile_one_tenant A pg fetch enabled max_backfill a).0.missing_in_s3_count)
        × (elem i (A.event_ids a) ≡ (
            elem i (A.event_ids a)
            && elem i (A.event_ids (reconcile_one_tenant A pg fetch enabled max_backfill a).1)))
  unfolding reconcile_one_tenant
  reconcile_one_tenant-bounded pg false max_backfill a i = (omega arith, ground arith)
  reconcile_one_tenant-bounded pg true max_backfill a i =
      let missing = (diff_event_sets pg (A.event_ids a)).missing_in_s3 in
      let some_missing = take max_backfill missing in
      rw (reconcile_loop pg true max_backfill a) (
        omega (arith, backfill-count some_missing 0 a, length-take max_backfill missing),
        ground (arith, backfill-keeps some_missing 0 a i),
      )
