-- ===== src/Tests/PromptExamples.antt =====
-- The theorems on prompt versions at concrete inputs.
use sentinal_rag.Base.{◌≡◌, refl, true, none, [], ◌∷◌}
use sentinal_rag.Base.Dict.{nat_eq, string_eq}
use sentinal_rag.Prompts.{
  PromptTemplate, Tables, ok, find, new_version, create_version, resolve_for_task,
}
use sentinal_rag.Prompts.Laws.{IsValid, create_version-IsValid, create_version-resolves}

abbrev template : PromptTemplate
template = record { id = 1; name = "rag_answer_generation"; task_type = "rag_answer_generation" }

abbrev tables : Tables
tables = record {
  templates = template ∷ [];
  versions =
      record {
        id = 2;
        prompt_template_id = 1;
        version_number = 1;
        system_prompt = "old";
        user_prompt_template = "{query}";
        is_default = true;
      }
      ∷ [];
  next_id = 3;
}

create_version-IsValid_example : IsValid (create_version 1 "new" "{query}" true tables).1.versions
create_version-IsValid_example = create_version-IsValid 1 "new" "{query}" true tables (tt, tt)

create_version-resolves_example :
    (resolve_for_task "new" "{query}" "rag_answer_generation" none
      (create_version 1 "new" "{query}" true tables).1).0
    ≡ ok (new_version 1 "new" "{query}" true tables)
unfolding find create_version
create_version-resolves_example =
    create_version-resolves "new" "{query}" "rag_answer_generation" template
      (new_version 1 "new" "{query}" true tables) tables refl refl
