-- ===== src/Audit/Event/Laws.antt =====
-- The key of an event tells its day and its id, and the storage under these keys is an archive.
use sentinal_rag.Audit.Reconciliation.{elem, Archive}
use sentinal_rag.Base.Dict.{Dict, insert}
use sentinal_rag.Base.{
  ◌==◌, Bool-cases, Option-cases, length, take, any, length-append, ℕ, ◌-◌, ◌≡◌, refl, subst, ap,
  ◌∙◌, inl, inr, Bool, true, false, ◌||◌, some, [], ◌∷◌, ◌++◌, reverse, reverse-append,
  append_assoc, arith,
}
use sentinal_rag.Base.Text.{Text, codes, text_beq, text_beq_iff, text_eq, starts_with}
use sentinal_rag.Audit.Event.{
  DateTime, AuditEvent, Formats, suffix, slash, basename, ends_with, day_prefix, s3_key,
  event_id_from_key, list_s3, put_s3,
}

starts_with-append : (p t : Text) → starts_with p (p ++ t) ≡ true
starts_with-append [] t = refl
starts_with-append (c ∷ p) t = ground (arith, starts_with-append p t)

take-append : (b t : Text) → take (length b) (b ++ t) ≡ b
take-append [] t = refl
take-append (c ∷ b) t = ap (λ r. c ∷ r) (take-append b t)

any-append : (p : ℕ → Bool) (a b : Text) → any p (a ++ b) ≡ (any p a || any p b)
any-append p [] b = refl
any-append p (c ∷ a) b = ground (arith, any-append p a b)

basename-append : (t base : Text) → any slash base ≡ false → basename (t ++ 47 ∷ base) ≡ base
unfolding basename
basename-append [] base h = rw h refl
basename-append (c ∷ t) base h =
    let there : any slash (t ++ 47 ∷ base) ≡ true = any-append slash t (47 ∷ base) ∙ ground arith in
    rw there (basename-append t base h)

ends_with-append : (b t : Text) → ends_with t (b ++ t) ≡ true
ends_with-append b t = rw (reverse-append b t) (starts_with-append (reverse t) (reverse b))

module _ (f : Formats) where
  -- A UUID is read back from its text, which has no slash.
  pub record AreUuids : Type 0 where
    pub parsed : (i : ℕ) → f.parse_uuid (f.show_uuid i) ≡ some i
    pub no_slash : (i : ℕ) → any slash (f.show_uuid i) ≡ false

  s3_key_parts :
      (e : AuditEvent)
      → s3_key f e
        ≡ day_prefix f e.tenant_id e.created_at
          ++ (codes "hour=" ++ f.padded 2 e.created_at.hour ++ (47 ∷ f.show_uuid e.id ++ suffix))
  unfolding s3_key day_prefix
  s3_key_parts e = simp append_assoc

  module _ (u : AreUuids) where
    -- The key of an event stands under the prefix of its tenant and day, and gives back its id.
    event_id_from_key-s3_key :
        (e : AuditEvent)
        → (starts_with (day_prefix f e.tenant_id e.created_at) (s3_key f e) ≡ true)
          × (event_id_from_key f (s3_key f e) ≡ some e.id)
    unfolding event_id_from_key
    event_id_from_key-s3_key e =
        let name = f.show_uuid e.id ++ suffix in
        let front =
          day_prefix f e.tenant_id e.created_at
          ++ (codes "hour=" ++ f.padded 2 e.created_at.hour) in
        let flat : any slash name ≡ false =
          any-append slash (f.show_uuid e.id) suffix ∙ rw (u.no_slash e.id) refl in
        let parts : s3_key f e ≡ front ++ 47 ∷ name = s3_key_parts e ∙ simp append_assoc in
        let base : basename (s3_key f e) ≡ name =
          ap basename parts ∙ basename-append front name flat in
        let size : length name - length suffix ≡ length (f.show_uuid e.id) =
          omega (arith, length-append (f.show_uuid e.id) suffix) in
        (
          rw (s3_key_parts e) (
              starts_with-append (day_prefix f e.tenant_id e.created_at) (
                codes "hour="
                ++ f.padded 2 e.created_at.hour
                ++ (47 ∷ f.show_uuid e.id ++ suffix))),
          rw
              (
                base,
                ends_with-append (f.show_uuid e.id) suffix,
                size,
                take-append (f.show_uuid e.id) suffix,
              )
              (u.parsed e.id),
        )

    list_s3-insert :
        (prefix key : Text) (e : AuditEvent) (id i : ℕ) (objects : Dict Text AuditEvent)
        → starts_with prefix key ≡ true
        → event_id_from_key f key ≡ some id
        → elem i (list_s3 f prefix (insert key e objects))
          ≡ ((id == i) || elem i (list_s3 f prefix objects))
    unfolding list_s3 insert elem
    list_s3-insert prefix key e id i [] under named = rw (under, named) refl
    list_s3-insert prefix key e id i ((k, o) ∷ objects) under named =
        let rest = list_s3-insert prefix key e id i objects under named in
        elim (Bool-cases (text_beq k key)) [
          | inl same ↦
              let eq : k ≡ key = (text_beq_iff k key).0 same in
              rw (same, ap (starts_with prefix) eq ∙ under, ap (event_id_from_key f) eq ∙ named)
                (ground arith)
          | inr other ↦ rw other (elim (Bool-cases (starts_with prefix k)) [
            | inl p ↦ rw p (elim (Option-cases (event_id_from_key f k)) [
              | inl foreign ↦ rw foreign rest
              | inr (j, own) ↦ rw own (ground (arith, rest))
            ])
            | inr p ↦ rw p rest
          ])
        ]

    -- After the upload of an event, the listing of its tenant and day shows its id and those that
    -- it showed before, and no other.
    pub list_s3-put_s3 :
        (e : AuditEvent) (objects : Dict Text AuditEvent) (i : ℕ)
        → elem i (list_s3 f (day_prefix f e.tenant_id e.created_at) (put_s3 f e objects))
          ≡ ((e.id == i) || elem i (list_s3 f (day_prefix f e.tenant_id e.created_at) objects))
    unfolding put_s3
    list_s3-put_s3 e objects i =
        let (under, named) = event_id_from_key-s3_key e in
        list_s3-insert (day_prefix f e.tenant_id e.created_at) (s3_key f e) e e.id i objects under
          named

    module _ (tenant_id : ℕ) (day : DateTime) where
      -- The events of the tenant and the day.
      abbrev OfDay : Type 0
      OfDay =
          (e : AuditEvent) × (day_prefix f e.tenant_id e.created_at ≡ day_prefix f tenant_id day)

      -- The listing and the upload of the activity are the archive that the reconciliation needs.
      abbrev day_archive : Archive OfDay
      day_archive = record {
        Objects = Dict Text AuditEvent;
        event_ids = list_s3 f (day_prefix f tenant_id day);
        put = λ e objects. put_s3 f e.0 objects;
        event_id = λ e. e.0.id;
        put_lists = λ e objects i.
            subst
              (λ prefix.
                elem i (list_s3 f prefix (put_s3 f e.0 objects))
                ≡ ((e.0.id == i) || elem i (list_s3 f prefix objects)))
              e.1 (list_s3-put_s3 e.0 objects i);
      }
