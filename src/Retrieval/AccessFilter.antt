-- ===== src/Retrieval/AccessFilter.antt =====
-- packages/shared/python/sentinelrag_shared/retrieval/access_filter.py: the SQL predicate as a
-- function on the rows that the session sees; row level security is the database's. An id that is
-- NULL is `none`.
pub mod Laws
use sentinal_rag.Base.{
  leb, ◌==◌, if◌then◌else◌, is_nil, keep_if, any, ℕ, String, Bool, false, ◌&&◌, ◌||◌, Option, none,
  some, List, map, str_eq,
}
use sentinal_rag.Base.Dict.{nat_eq, string_eq}
use sentinal_rag.Base.Text.{Text}

pub record AuthContext : Type 0 where
  pub user_id : ℕ
  pub tenant_id : ℕ
  pub email : String
  -- the frozenset, ascending
  pub permissions : List Text

-- A row of `collections`.
pub record Collection : Type 0 where
  pub id : ℕ
  pub tenant_id : ℕ
  pub visibility : String

-- A row of `collection_access_policies`.
pub record Policy : Type 0 where
  pub collection_id : ℕ
  pub role_id : Option ℕ
  pub user_id : Option ℕ
  pub access_level : String

-- A row of `user_roles`.
pub record UserRole : Type 0 where
  pub user_id : ℕ
  pub role_id : ℕ

-- A row of `documents`.
pub record Document : Type 0 where
  pub id : ℕ
  pub collection_id : ℕ

pub record Tables : Type 0 where
  pub collections : List Collection
  pub policies : List Policy
  pub user_roles : List UserRole
  pub documents : List Document

-- `_ACCESS_LEVEL_RANK`, and the CASE on a policy's level, whose NULL compares as false.
unfoldable pub level_rank : String → Option ℕ
level_rank level =
    if str_eq level "read"
    then some 1
    else if str_eq level "write"
    then some 2
    else if str_eq level "admin"
    then some 3
    else none

-- `AccessFilter.__init__`: the rank of the level, `none` for the `ValueError`.
unfoldable pub make : String → Option ℕ
unfolding level_rank
make require_access_level = level_rank require_access_level

abbrev pub is_id : ℕ → Option ℕ → Bool
is_id i none = false
is_id i (some j) = j == i

abbrev pub at_least : ℕ → Option ℕ → Bool
at_least m none = false
at_least m (some rank) = leb m rank

-- `CASE p.access_level … END >= :min_access_rank`
unfoldable pub reaches : ℕ → Policy → Bool
unfolding level_rank
reaches min_access_rank p = elim (level_rank p.access_level) [
  | none ↦ false
  | some rank ↦ leb min_access_rank rank
]

module _ (auth : AuthContext) (t : Tables) where
  -- The row of `user_roles` that the second LEFT JOIN finds for the policy.
  unfoldable pub holds_role : Policy → Bool
  holds_role p = any (λ ur. is_id ur.role_id p.role_id && (ur.user_id == auth.user_id)) t.user_roles

  -- The disjunction of the WHERE clause, for a policy of the collection.
  unfoldable pub grants : ℕ → Policy → Bool
  grants min_access_rank p =
      (is_id auth.user_id p.user_id && reaches min_access_rank p)
      || (holds_role p && reaches min_access_rank p)

  unfoldable pub authorized : ℕ → Collection → Bool
  authorized min_access_rank c =
      (c.tenant_id == auth.tenant_id)
      && ((str_eq c.visibility "tenant" && leb min_access_rank 1)
          || any (λ p. (p.collection_id == c.id) && grants min_access_rank p) t.policies)

  -- The rows of the CTE; only membership is asked of them.
  unfoldable pub authorized_collections : ℕ → List ℕ
  authorized_collections min_access_rank =
      map (λ c. c.id) (keep_if (authorized min_access_rank) t.collections)

  unfoldable pub in_collections : List ℕ → ℕ → Bool
  in_collections ids document_id =
      any (λ d. (d.id == document_id) && any (λ i. i == d.collection_id) ids) t.documents

  -- `AccessFilter.build`, as a test of a chunk's document; no ids and `None` put no clause.
  unfoldable pub build : ℕ → List ℕ → ℕ → Bool
  build min_access_rank collection_ids document_id =
      in_collections (authorized_collections min_access_rank) document_id
      && (is_nil collection_ids || in_collections collection_ids document_id)
