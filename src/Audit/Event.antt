-- ===== src/Audit/Event.antt =====
-- packages/shared/python/sentinelrag_shared/audit/event.py, and the listing and the upload of
-- activities/audit_reconciliation.py on an object storage that is a dict from keys to events.
-- The printing of UUIDs and padded numbers, and the parsing of UUIDs, are Python's: parameters.
pub mod Laws
use sentinal_rag.Base.{
  ◌==◌, if◌then◌else◌, length, take, any, ℕ, ◌-◌, String, Bool, Option, none, some, List, [], ◌∷◌,
  ◌++◌, reverse,
}
use sentinal_rag.Base.Dict.{Dict, insert}
use sentinal_rag.Base.Text.{Text, codes, text_eq, starts_with}
use sentinal_rag.Base.Json.{Json}

-- A `datetime`, by its parts in UTC (`astimezone(UTC)`); `second` holds what is below the hour.
pub record DateTime : Type 0 where
  pub year : ℕ
  pub month : ℕ
  pub day : ℕ
  pub hour : ℕ
  pub second : ℕ

pub record AuditEvent : Type 0 where
  pub id : ℕ
  pub tenant_id : ℕ
  pub actor_user_id : Option ℕ
  pub event_type : Text
  pub resource_type : Option Text
  pub resource_id : Option ℕ
  pub action : Text
  pub ip_address : Option Text
  pub user_agent : Option Text
  pub request_id : Option Text
  pub before_state : Option (Dict String Json)
  pub after_state : Option (Dict String Json)
  pub metadata : Dict String Json
  pub created_at : DateTime

pub record Formats : Type 0 where
  -- `str(uuid)`, and `UUID(text)` with `none` for its `ValueError`
  pub show_uuid : ℕ → Text
  pub parse_uuid : Text → Option ℕ
  -- `f"{n:0wd}"`
  pub padded : ℕ → ℕ → Text

abbrev pub suffix : Text
suffix = codes ".json.gz"

-- `"/"`
abbrev pub slash : ℕ → Bool
slash c = c == 47

-- `key.rsplit("/", 1)[-1]`
unfoldable pub basename : Text → Text
basename [] = []
basename (c ∷ key) =
    let rest = basename key in if any slash key then rest else if slash c then key else c ∷ key

abbrev pub ends_with : Text → Text → Bool
ends_with end t = starts_with (reverse end) (reverse t)

module _ (f : Formats) where
  unfoldable pub day_prefix : ℕ → DateTime → Text
  day_prefix tenant_id d =
      codes "tenant_id="
      ++ f.show_uuid tenant_id
      ++ codes "/year="
      ++ f.padded 4 d.year
      ++ codes "/month="
      ++ f.padded 2 d.month
      ++ codes "/day="
      ++ f.padded 2 d.day
      ++ codes "/"

  unfoldable pub s3_key : AuditEvent → Text
  s3_key e =
      codes "tenant_id="
      ++ f.show_uuid e.tenant_id
      ++ codes "/year="
      ++ f.padded 4 e.created_at.year
      ++ codes "/month="
      ++ f.padded 2 e.created_at.month
      ++ codes "/day="
      ++ f.padded 2 e.created_at.day
      ++ codes "/hour="
      ++ f.padded 2 e.created_at.hour
      ++ codes "/"
      ++ f.show_uuid e.id
      ++ codes ".json.gz"

  -- `none` is the `ValueError`.
  unfoldable pub event_id_from_key : Text → Option ℕ
  event_id_from_key key =
      let base = basename key in
      if ends_with suffix base then f.parse_uuid (take (length base - length suffix) base) else none

  -- `_list_s3`: the keys under the prefix, those of another shape skipped.
  unfoldable pub list_s3 : Text → Dict Text AuditEvent → List ℕ
  list_s3 prefix [] = []
  list_s3 prefix ((key, _) ∷ objects) =
      let rest = list_s3 prefix objects in
      if starts_with prefix key
      then elim (event_id_from_key key) [ none ↦ rest | some i ↦ i ∷ rest ]
      else rest

  -- `_put_s3`
  unfoldable pub put_s3 : AuditEvent → Dict Text AuditEvent → Dict Text AuditEvent
  put_s3 event objects = insert (s3_key event) event objects
