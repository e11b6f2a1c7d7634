-- ===== src/Ingestion/Elements.antt =====
-- `_element_to_dict` and `_element_from_dict` of activities/ingestion.py: a parsed element as the
-- JSON object that one activity writes and another reads. `show` is Python's `str` of such a value.
use sentinal_rag.Base.{if◌then◌else◌, ℕ, String, ◌≡◌, refl, Option, none, some, List, [], ◌∷◌}
use sentinal_rag.Base.Dict.{string_eq, Dict, lookup}
use sentinal_rag.Base.Json.{
  Json, null, text, int, boolean, object, Fields, end, dumped, dumped_fields, truth,
}
use sentinal_rag.Base.Text.{Text, codes, text_beq, text_eq}
use sentinal_rag.Chunking.{
  ElementType, title, heading, narrative_text, list_item, table, image, formula, page_break, header,
  footer, uncategorized, ParsedElement,
}

-- `ElementType.value`
unfoldable pub type_value : ElementType → Text
type_value title = codes "title"
type_value heading = codes "heading"
type_value narrative_text = codes "narrative_text"
type_value list_item = codes "list_item"
type_value table = codes "table"
type_value image = codes "image"
type_value formula = codes "formula"
type_value page_break = codes "page_break"
type_value header = codes "header"
type_value footer = codes "footer"
type_value uncategorized = codes "uncategorized"

abbrev all_types : List ElementType
all_types =
    title ∷ heading ∷ narrative_text ∷ list_item ∷ table ∷ image ∷ formula ∷ page_break ∷ header
    ∷ footer ∷ uncategorized ∷ []

abbrev find_type : Text → List ElementType → Option ElementType
find_type t [] = none
find_type t (e ∷ es) = if text_beq (type_value e) t then some e else find_type t es

-- `ElementType(…)`; `none` is the `ValueError`.
unfoldable pub type_of : Text → Option ElementType
unfolding type_value
type_of t = find_type t all_types

abbrev of_int : Option ℕ → Json
of_int none = null
of_int (some n) = int n

abbrev of_text : Option Text → Json
of_text none = null
of_text (some t) = text t

-- `_element_to_dict`
unfoldable pub element_to_dict : ParsedElement → Dict String Json
element_to_dict e =
    ("text", text e.text)
    ∷ ("element_type", text (type_value e.element_type))
    ∷ ("page_number", of_int e.page_number)
    ∷ ("section_title", of_text e.section_title)
    ∷ ("table_html", of_text e.table_html)
    ∷ ("metadata", object e.metadata)
    ∷ []

-- The object after `json.dumps(…, default=str)` and `json.loads`.
abbrev pub reread : Dict String Json → Dict String Json
reread [] = []
reread ((key, value) ∷ item) = (key, dumped value) ∷ reread item

-- `v if isinstance(v, int) else None`, where a bool is an int; the same for `str` and `dict`
abbrev as_int : Option Json → Option ℕ
as_int (some (int n)) = some n
as_int (some (boolean b)) = some (if b then 1 else 0)
as_int _ = none

abbrev as_text : Option Json → Option Text
as_text (some (text t)) = some t
as_text _ = none

abbrev as_fields : Option Json → Fields
as_fields (some (object fs)) = fs
as_fields _ = end

module _ (show : Json → Text) where
  -- `str(v or default)`; the `str` of a text is the text
  abbrev shown : Json → Text
  shown (text t) = t
  shown v = show v

  abbrev str_or : Option Json → Text → Text
  str_or none default = default
  str_or (some v) default = if truth v then shown v else default

  abbrev with_type : Option ElementType → Dict String Json → Option ParsedElement
  with_type none item = none
  with_type (some element_type) item = some (record {
    text = str_or (lookup "text" item) [];
    element_type = element_type;
    page_number = as_int (lookup "page_number" item);
    section_title = as_text (lookup "section_title" item);
    table_html = as_text (lookup "table_html" item);
    metadata = as_fields (lookup "metadata" item);
  })

  -- `_element_from_dict`
  unfoldable pub element_from_dict : Dict String Json → Option ParsedElement
  element_from_dict item =
      with_type (type_of (str_or (lookup "element_type" item) (type_value uncategorized))) item

  as_int-dumped : (o : Option ℕ) → as_int (some (dumped (of_int o))) ≡ o
  unfolding dumped
  as_int-dumped none = refl
  as_int-dumped (some n) = refl

  as_text-dumped : (o : Option Text) → as_text (some (dumped (of_text o))) ≡ o
  unfolding dumped
  as_text-dumped none = refl
  as_text-dumped (some t) = refl

  str_or-text : (t : Text) → str_or (some (dumped (text t))) [] ≡ t
  unfolding dumped truth
  str_or-text [] = refl
  str_or-text (c ∷ t) = refl

  type_of-type_value :
      (e : ElementType)
      → type_of (str_or (some (dumped (text (type_value e)))) (type_value uncategorized)) ≡ some e
  unfolding type_of type_value dumped truth
  type_of-type_value title = refl
  type_of-type_value heading = refl
  type_of-type_value narrative_text = refl
  type_of-type_value list_item = refl
  type_of-type_value table = refl
  type_of-type_value image = refl
  type_of-type_value formula = refl
  type_of-type_value page_break = refl
  type_of-type_value header = refl
  type_of-type_value footer = refl
  type_of-type_value uncategorized = refl

  -- An element that one activity writes as a JSON object, with `str` for what JSON does not have,
  -- is read by the next activity as it was, but for such values in its metadata, which are texts
  -- then.
  pub element_from_dict-reread :
      (e : ParsedElement)
      → element_from_dict (reread (element_to_dict e))
        ≡ some (record e { metadata = dumped_fields e.metadata })
  unfolding element_from_dict element_to_dict lookup dumped
  element_from_dict-reread e =
      let known = type_of-type_value e.element_type in
      rw
        (
          known,
          str_or-text e.text,
          as_int-dumped e.page_number,
          as_text-dumped e.section_title,
          as_text-dumped e.table_html,
        )
        refl
