-- ===== src/Retrieval/AccessFilter/Laws.antt =====
-- Who may read a collection, as rules, and that the SQL predicate of the access filter decides it.
use sentinal_rag.Base.{
  ◌==◌, ==_iff, leb→le, Bool-cases, some_inj, &&-split, ||-split, is_nil, keep_if, any, Any,
  any_decides, ℕ, ◌≤◌, ◌≡◌, refl, ◌↔◌, ◌⊎◌, inl, inr, true, ◌&&◌, Option, none, some, List, [], ◌∷◌,
  map, arith, eq_iff,
}
use sentinal_rag.Base.Dict.{nat_eq, string_eq}
use sentinal_rag.Retrieval.AccessFilter.{
  AuthContext, Collection, Policy, Tables, level_rank, is_id, at_least, reaches, holds_role, grants,
  authorized, authorized_collections, in_collections, build,
}

-- The policy's level is known and of rank at least `min_access_rank`.
abbrev pub Reaches : ℕ → Policy → Type 0
Reaches m p = (rank : ℕ) × (level_rank p.access_level ≡ some rank) × (m ≤ rank)

pub data Grants (auth : AuthContext) (t : Tables) (m : ℕ) (p : Policy) : Type 0 where
  direct : p.user_id ≡ some auth.user_id → Reaches m p → Grants auth t m p
  through_role :
      Any (λ ur. (p.role_id ≡ some ur.role_id) × (ur.user_id ≡ auth.user_id)) t.user_roles
      → Reaches m p
      → Grants auth t m p

pub data MayAccess (auth : AuthContext) (t : Tables) (m : ℕ) (c : Collection) : Type 0 where
  tenant_wide :
      c.tenant_id ≡ auth.tenant_id → c.visibility ≡ "tenant" → m ≤ 1 → MayAccess auth t m c
  granted :
      c.tenant_id ≡ auth.tenant_id
      → Any (λ p. (p.collection_id ≡ c.id) × Grants auth t m p) t.policies
      → MayAccess auth t m c

is_id_iff : (i : ℕ) (o : Option ℕ) → (is_id i o ≡ true) ↔ (o ≡ some i)
is_id_iff i none = ((λ e. cc e), (λ e. cc e))
is_id_iff i (some j) = ground (arith, ==_iff j i)

at_least_iff :
    (m : ℕ) (o : Option ℕ) → (at_least m o ≡ true) ↔ ((rank : ℕ) × (o ≡ some rank) × (m ≤ rank))
at_least_iff m none = ((λ e. cc e), (λ h. cc (h.1)))
at_least_iff m (some rank) = (
  (λ e. (rank, refl, leb→le m rank e)),
  (λ h. let same : rank ≡ h.0 = some_inj rank h.0 h.1 in ground (arith, same, h.2)),
)

reaches_iff : (m : ℕ) (p : Policy) → (reaches m p ≡ true) ↔ Reaches m p
unfolding reaches
reaches_iff m p = at_least_iff m (level_rank p.access_level)

module _ (auth : AuthContext) (t : Tables) where
  holds_role_iff :
      (p : Policy)
      → (holds_role auth t p ≡ true)
        ↔ Any (λ ur. (p.role_id ≡ some ur.role_id) × (ur.user_id ≡ auth.user_id)) t.user_roles
  unfolding holds_role
  holds_role_iff p =
      any_decides _ _ t.user_roles
        (λ ur. ground (arith, is_id_iff ur.role_id p.role_id, ==_iff ur.user_id auth.user_id))

  grants_iff : (m : ℕ) (p : Policy) → (grants auth t m p ≡ true) ↔ Grants auth t m p
  unfolding grants
  grants_iff m p = (
    (λ h. elim (||-split _ _ h) [
      | inl d ↦
          let (u, r) = &&-split _ _ d in
          direct ((is_id_iff auth.user_id p.user_id).0 u) ((reaches_iff m p).0 r)
      | inr d ↦
          let (u, r) = &&-split _ _ d in
          through_role ((holds_role_iff p).0 u) ((reaches_iff m p).0 r)
    ]),
    (λ h. elim h [
      | direct u r ↦ ground (arith, (is_id_iff auth.user_id p.user_id).1 u, (reaches_iff m p).1 r)
      | through_role u r ↦ ground (arith, (holds_role_iff p).1 u, (reaches_iff m p).1 r)
    ]),
  )

  policies_iff :
      (m : ℕ) (c : Collection)
      → (any (λ p. (p.collection_id == c.id) && grants auth t m p) t.policies ≡ true)
        ↔ Any (λ p. (p.collection_id ≡ c.id) × Grants auth t m p) t.policies
  policies_iff m c =
      any_decides _ _ t.policies (λ p. ground (arith, grants_iff m p, ==_iff p.collection_id c.id))

  -- The predicate admits a collection exactly if it is of the user's tenant and either visible to
  -- the tenant, when no more than read access is asked for, or granted by a policy of sufficient
  -- level to the user or to a role that the user holds.
  pub authorized_iff :
      (m : ℕ) (c : Collection) → (authorized auth t m c ≡ true) ↔ MayAccess auth t m c
  unfolding authorized
  authorized_iff m c = (
    (λ h.
        let (tenant, rest) = &&-split _ _ h in
        let same = (==_iff c.tenant_id auth.tenant_id).0 tenant in
        elim (||-split _ _ rest) [
          | inl d ↦
              let (v, r) = &&-split _ _ d in
              tenant_wide same ((eq_iff c.visibility "tenant").0 v) (leb→le m 1 r)
          | inr d ↦ granted same ((policies_iff m c).0 d)
        ]),
    (λ h. elim h [
      | tenant_wide same v r ↦
          ground
            (arith, (==_iff c.tenant_id auth.tenant_id).1 same, (eq_iff c.visibility "tenant").1 v)
      | granted same d ↦
          ground (arith, (==_iff c.tenant_id auth.tenant_id).1 same, (policies_iff m c).1 d)
    ]),
  )

  any-ids :
      (m i : ℕ) (cs : List Collection)
      → any (λ j. j == i) (map (λ c. c.id) (keep_if (authorized auth t m) cs))
        ≡ any (λ c. authorized auth t m c && (c.id == i)) cs
  any-ids m i [] = refl
  any-ids m i (c ∷ cs) = elim (Bool-cases (authorized auth t m c)) [
    | inl e ↦ rw (e, any-ids m i cs) refl
    | inr e ↦ rw (e, any-ids m i cs) refl
  ]

  -- The collection `i` is one that the user may access.
  abbrev pub Accessible : ℕ → ℕ → Type 0
  Accessible m i = Any (λ c. MayAccess auth t m c × (c.id ≡ i)) t.collections

  pub authorized_collections_iff :
      (m i : ℕ) → (any (λ j. j == i) (authorized_collections auth t m) ≡ true) ↔ Accessible m i
  unfolding authorized_collections
  authorized_collections_iff m i =
      rw (any-ids m i t.collections)
        (any_decides _ _ t.collections (λ c. ground (arith, authorized_iff m c, ==_iff c.id i)))

  -- The document is of an accessible collection, and of a requested one if some are requested.
  abbrev pub MayRead : ℕ → List ℕ → ℕ → Type 0
  MayRead m ids doc =
      Any (λ d. (d.id ≡ doc) × Accessible m d.collection_id) t.documents
      × ((ids ≡ []) ⊎ Any (λ d. (d.id ≡ doc) × Any (λ i. i ≡ d.collection_id) ids) t.documents)

  in_collections_iff :
      (ids : List ℕ) (P : ℕ → Type 0) (doc : ℕ)
      → ((i : ℕ) → (any (λ j. j == i) ids ≡ true) ↔ P i)
      → (in_collections auth t ids doc ≡ true)
        ↔ Any (λ d. (d.id ≡ doc) × P d.collection_id) t.documents
  unfolding in_collections
  in_collections_iff ids P doc h =
      any_decides _ _ t.documents (λ d. ground (arith, h d.collection_id, ==_iff d.id doc))

  pub is_nil_iff : (ids : List ℕ) → (is_nil ids ≡ true) ↔ (ids ≡ [])
  is_nil_iff [] = ((λ e. refl), (λ e. refl))
  is_nil_iff (i ∷ ids) = ((λ e. cc e), (λ e. cc e))

  -- The test that the searches put on a chunk's document holds exactly if the document is of a
  -- collection that the user may access and, when collections are requested, of a requested one.
  pub build_iff :
      (m : ℕ) (ids : List ℕ) (doc : ℕ) → (build auth t m ids doc ≡ true) ↔ MayRead m ids doc
  unfolding build
  build_iff m ids doc =
      let allowed =
        in_collections_iff (authorized_collections auth t m) (Accessible m) doc
          (authorized_collections_iff m) in
      let asked =
        in_collections_iff ids (λ i. Any (λ j. j ≡ i) ids) doc
          (λ i. any_decides _ _ ids (λ j. ==_iff j i)) in
      (
        (λ h.
            let (a, b) = &&-split _ _ h in
            (
              allowed.0 a,
              elim (||-split _ _ b) [
                | inl e ↦ inl ((is_nil_iff ids).0 e)
                | inr e ↦ inr (asked.0 e)
              ],
            )),
        (λ h. elim h.1 [
          | inl e ↦ ground (arith, allowed.1 h.0, (is_nil_iff ids).1 e)
          | inr e ↦ ground (arith, allowed.1 h.0, asked.1 e)
        ]),
      )
