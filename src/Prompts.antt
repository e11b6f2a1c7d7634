-- ===== src/Prompts.antt =====
-- `PromptService` of apps/api/app/services/prompt_service.py with the queries of
-- apps/api/app/db/repositories/prompts.py, on the rows that one tenant sees. Ids are numbers,
-- given in order; the fields that no operation reads are left out.
pub mod Laws
use sentinal_rag.Base.{
  ◌==◌, if◌then◌else◌, ℕ, suc, ◌+◌, max, String, Bool, true, false, ◌&&◌, not, Option, none, some,
  List, [], ◌∷◌, ◌++◌, str_eq,
}
use sentinal_rag.Base.Dict.{string_eq}

pub record PromptTemplate : Type 0 where
  pub id : ℕ
  pub name : String
  pub task_type : String

pub record PromptVersion : Type 0 where
  pub id : ℕ
  pub prompt_template_id : ℕ
  pub version_number : ℕ
  pub system_prompt : String
  pub user_prompt_template : String
  pub is_default : Bool

pub record Tables : Type 0 where
  pub templates : List PromptTemplate
  pub versions : List PromptVersion
  pub next_id : ℕ

pub data Error : Type 0 where
  conflict : Error
  not_found : Error

-- A value, or the error that was raised.
pub data Answer (A : Type 0) : Type 0 where
  ok : A → Answer A
  error : Error → Answer A

abbrev pub default_rag_prompt_name : String
default_rag_prompt_name = "rag_answer_generation"

-- `scalar_one_or_none` of the rows that meet a condition, where at most one does.
unfoldable pub find {ℓ} : {A : Type ℓ} → (A → Bool) → List A → Option A
find p [] = none
find p (x ∷ xs) = if p x then some x else find p xs

unfoldable pub latest_version_number : ℕ → List PromptVersion → ℕ
latest_version_number template_id [] = 0
latest_version_number template_id (v ∷ vs) =
    if v.prompt_template_id == template_id
    then max v.version_number (latest_version_number template_id vs)
    else latest_version_number template_id vs

unfoldable pub get_default : ℕ → List PromptVersion → Option PromptVersion
unfolding find
get_default template_id = find (λ v. (v.prompt_template_id == template_id) && v.is_default)

-- UPDATE prompt_versions SET is_default = false
unfoldable pub clear_default : ℕ → List PromptVersion → List PromptVersion
clear_default template_id [] = []
clear_default template_id (v ∷ vs) =
    (if v.prompt_template_id == template_id then record v { is_default = false } else v)
    ∷ clear_default template_id vs

unfoldable pub create_template : String → String → Tables → Answer PromptTemplate × Tables
unfolding find
create_template name task_type t = elim (find (λ x. str_eq x.name name) t.templates) [
  | some x ↦ (error conflict, t)
  | none ↦
      let template : PromptTemplate = record {
        id = t.next_id;
        name = name;
        task_type = task_type;
      } in
      (ok template, record t { templates = t.templates ++ template ∷ []; next_id = suc t.next_id })
]

unfoldable pub add_version : PromptVersion → Tables → Tables
add_version v t = record t { versions = t.versions ++ v ∷ []; next_id = suc t.next_id }

-- The row that `create_version` adds.
abbrev pub new_version : ℕ → String → String → Bool → Tables → PromptVersion
new_version template_id system_prompt user_prompt_template set_as_default t = record {
  id = t.next_id;
  prompt_template_id = template_id;
  version_number = latest_version_number template_id t.versions + 1;
  system_prompt = system_prompt;
  user_prompt_template = user_prompt_template;
  is_default = set_as_default;
}

unfoldable pub create_version : ℕ → String → String → Bool → Tables → Answer PromptVersion × Tables
unfolding find clear_default add_version
create_version template_id system_prompt user_prompt_template set_as_default t =
    elim (find (λ x. x.id == template_id) t.templates) [
      | none ↦ (error not_found, t)
      | some x ↦
          let cleared =
            if set_as_default then clear_default template_id t.versions else t.versions in
          let version =
            new_version template_id system_prompt user_prompt_template set_as_default t in
          (ok version, add_version version (record t { versions = cleared }))
    ]

unfoldable pub get_version : ℕ → Tables → Answer PromptVersion
unfolding find
get_version version_id t = elim (find (λ v. v.id == version_id) t.versions) [
  | some v ↦ ok v
  | none ↦ error not_found
]

-- `_seed_default_rag_prompt`; the two texts of the seeded prompt are arguments.
unfoldable pub seed_default_rag_prompt : String → String → Tables → Answer PromptVersion × Tables
unfolding add_version
seed_default_rag_prompt system_prompt user_prompt_template t =
    let template : PromptTemplate = record {
      id = t.next_id;
      name = default_rag_prompt_name;
      task_type = default_rag_prompt_name;
    } in
    let version : PromptVersion = record {
      id = suc t.next_id;
      prompt_template_id = t.next_id;
      version_number = 1;
      system_prompt = system_prompt;
      user_prompt_template = user_prompt_template;
      is_default = true;
    } in
    (
      ok version,
      add_version version
          (record t { templates = t.templates ++ template ∷ []; next_id = suc t.next_id }),
    )

unfoldable pub resolve_for_task :
    String → String → String → Option ℕ → Tables → Answer PromptVersion × Tables
unfolding find get_default get_version seed_default_rag_prompt
resolve_for_task system_prompt user_prompt_template task_type (some version_id) t =
    (get_version version_id t, t)
resolve_for_task system_prompt user_prompt_template task_type none t =
    elim (find (λ x. str_eq x.name task_type) t.templates) [
      | none ↦
          if not (str_eq task_type default_rag_prompt_name)
          then (error not_found, t)
          else seed_default_rag_prompt system_prompt user_prompt_template t
      | some template ↦ elim (get_default template.id t.versions) [
        | none ↦ (error not_found, t)
        | some v ↦ (ok v, t)
      ]
    ]
