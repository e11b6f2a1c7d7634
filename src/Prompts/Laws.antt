-- ===== src/Prompts/Laws.antt =====
-- Versions of one template have different numbers and at most one is the default.
use sentinal_rag.Base.{
  ◌==◌, if◌then◌else◌, Option-cases, All, All-snoc, ℕ, ◌+◌, ◌≤◌, String, ◌≡◌, refl, inl, inr, Bool,
  true, false, ◌&&◌, none, some, List, [], ◌∷◌, ◌++◌, arith, str_eq,
}
use sentinal_rag.Base.Dict.{string_eq}
use sentinal_rag.Base.Sort.{AllPairs}
use sentinal_rag.Prompts.{
  PromptTemplate, PromptVersion, Tables, ok, find, latest_version_number, get_default,
  clear_default, add_version, new_version, create_version, resolve_for_task,
}

-- The two rows are not versions of one template with one number, and not both its default.
abbrev pub Apart : PromptVersion → PromptVersion → Type 0
Apart v w =
    (((v.prompt_template_id == w.prompt_template_id) && (v.version_number == w.version_number))
      ≡ false)
    × (((v.prompt_template_id == w.prompt_template_id) && (v.is_default && w.is_default)) ≡ false)

abbrev pub IsValid : List PromptVersion → Type 0
IsValid = AllPairs Apart

AllPairs-snoc {ℓ κ} :
    {A : Type ℓ} (R : A → A → Type κ) (xs : List A) (y : A)
    → AllPairs R xs
    → All (λ x. R x y) xs
    → AllPairs R (xs ++ y ∷ [])
AllPairs-snoc R [] y h a = (tt, tt)
AllPairs-snoc R (x ∷ xs) y h a = (All-snoc (R x) xs y h.0 a.0, AllPairs-snoc R xs y h.1 a.1)

clear_default-All :
    (tid : ℕ) (v : PromptVersion) (vs : List PromptVersion)
    → All (Apart v) vs
    → (w : PromptVersion) → w.prompt_template_id ≡ v.prompt_template_id
    → w.version_number ≡ v.version_number
    → w.is_default ≡ (if v.prompt_template_id == tid then false else v.is_default)
    → All (Apart w) (clear_default tid vs)
unfolding clear_default
clear_default-All tid v [] h w a b c = tt
clear_default-All tid v (x ∷ vs) h w a b c =
    ((ground arith, ground arith), clear_default-All tid v vs h.1 w a b c)

clear_default-IsValid :
    (tid : ℕ) (vs : List PromptVersion) → IsValid vs → IsValid (clear_default tid vs)
unfolding clear_default
clear_default-IsValid tid [] h = tt
clear_default-IsValid tid (v ∷ vs) h = (
  clear_default-All tid v vs h.0
      (if v.prompt_template_id == tid then record v { is_default = false } else v) (ground arith)
      (ground arith) (ground arith),
  clear_default-IsValid tid vs h.1,
)

-- A version with a later number, and with no default beside it, is apart from all.
new-Apart :
    (tid n : ℕ) (vs : List PromptVersion) (w : PromptVersion)
    → latest_version_number tid vs ≤ n
    → w.prompt_template_id ≡ tid
    → w.version_number ≡ n + 1
    → w.is_default ≡ false
    → All (λ v. Apart v w) vs
unfolding latest_version_number
new-Apart tid n [] w le a b c = tt
new-Apart tid n (v ∷ vs) w le a b c =
    ((ground arith, ground arith), new-Apart tid n vs w (ground arith) a b c)

new_default-Apart :
    (tid n : ℕ) (vs : List PromptVersion) (w : PromptVersion)
    → latest_version_number tid vs ≤ n
    → w.prompt_template_id ≡ tid
    → w.version_number ≡ n + 1
    → All (λ v. Apart v w) (clear_default tid vs)
unfolding latest_version_number clear_default
new_default-Apart tid n [] w le a b = tt
new_default-Apart tid n (v ∷ vs) w le a b =
    ((ground arith, ground arith), new_default-Apart tid n vs w (ground arith) a b)

placed-IsValid :
    (tid : ℕ) (system user : String) (d : Bool) (t : Tables)
    → IsValid t.versions
    → IsValid (
        (if d then clear_default tid t.versions else t.versions)
        ++ new_version tid system user d t ∷ [])
placed-IsValid tid system user true t h =
    AllPairs-snoc Apart (clear_default tid t.versions) (new_version tid system user true t)
      (clear_default-IsValid tid t.versions h)
      (new_default-Apart tid (latest_version_number tid t.versions) t.versions
        (new_version tid system user true t) (omega arith) refl refl)
placed-IsValid tid system user false t h =
    AllPairs-snoc Apart t.versions (new_version tid system user false t) h (
      new-Apart tid (latest_version_number tid t.versions) t.versions
        (new_version tid system user false t) (omega arith) refl refl refl)

-- Whatever `create_version` answers, the versions of each template keep distinct numbers and at
-- most one default.
pub create_version-IsValid :
    (tid : ℕ) (system user : String) (set_as_default : Bool) (t : Tables)
    → IsValid t.versions
    → IsValid (create_version tid system user set_as_default t).1.versions
unfolding create_version add_version
create_version-IsValid tid system user set t h =
    elim (Option-cases (find (λ (x : PromptTemplate). x.id == tid) t.templates)) [
      | inl missing ↦ rw (create_version, missing) h
      | inr (x, e) ↦ rw (create_version, e) (placed-IsValid tid system user set t h)
    ]

get_default-clear :
    (tid : ℕ) (vs : List PromptVersion) (w : PromptVersion)
    → w.prompt_template_id ≡ tid
    → w.is_default ≡ true
    → get_default tid (clear_default tid vs ++ w ∷ []) ≡ some w
unfolding get_default find clear_default
get_default-clear tid [] w a b = ground arith
get_default-clear tid (v ∷ vs) w a b = ground (arith, get_default-clear tid vs w a b)

-- A version that was created as the default of a task's template is what the task resolves to
-- next, if the request names no version.
pub create_version-resolves :
    (system user task : String) (x : PromptTemplate) (v : PromptVersion) (t : Tables)
    → find (λ (y : PromptTemplate). str_eq y.name task) t.templates ≡ some x
    → (create_version x.id system user true t).0 ≡ ok v
    → (resolve_for_task system user task none (create_version x.id system user true t).1).0 ≡ ok v
unfolding create_version add_version resolve_for_task
create_version-resolves system user task x v t named made =
    elim (Option-cases (find (λ (y : PromptTemplate). y.id == x.id) t.templates)) [
      | inl missing ↦ ground arith
      | inr (y, e) ↦
          ground (
            arith,
            get_default-clear x.id t.versions (new_version x.id system user true t) refl refl,
          )
    ]
