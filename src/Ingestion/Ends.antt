-- ===== src/Ingestion/Ends.antt =====
-- How a run ends.
pub mod Exists
pub mod Outcome
use sentinal_rag.Base.{Option-cases, ℕ, zero, suc, ◌≡◌, refl, ◌⊎◌, inl, inr, some, List, [], ◌∷◌}
use sentinal_rag.Base.Dict.{nat_eq}
use sentinal_rag.Ingestion.{World}
use sentinal_rag.Ingestion.Activities.{Activity}
use sentinal_rag.Ingestion.Workflow.{
  Fault, fine, Sys, try_once, next_fault, later_faults, step, execute_activity,
}

-- Of three attempts in a row, one is fine.
abbrev pub OneFine : List Fault → Type 0
OneFine fs =
    (next_fault fs ≡ fine)
    ⊎ ((next_fault (later_faults fs) ≡ fine) ⊎ (next_fault (later_faults (later_faults fs)) ≡ fine))

abbrev pub IsMild : List Fault → Type 0
IsMild [] = Unit
IsMild (f ∷ fs) = OneFine (f ∷ fs) × IsMild fs

pub IsMild-later : (fs : List Fault) → IsMild fs → IsMild (later_faults fs)
IsMild-later [] h = tt
IsMild-later (f ∷ fs) h = h.1

IsMild-OneFine : (fs : List Fault) → IsMild fs → OneFine fs
IsMild-OneFine [] h = inl refl
IsMild-OneFine (f ∷ fs) h = h.0

-- The activity's statements do not raise.
abbrev pub IsTotal : {A : Type 0} → Activity A → Type 0
IsTotal {A = A} act = (w : World) → (a : A) × ((act.body w).0 ≡ some a)

module _ {A : Type 0} (act : Activity A) where
  abbrev Acked : ℕ → Sys → Type 0
  Acked left s = (a : A) × ((execute_activity left act s).0 ≡ some a)

  Acked-now : (left : ℕ) (s : Sys) (a : A) → (step act s).0 ≡ some a → Acked left s
  unfolding execute_activity
  Acked-now zero s a e = (a, e)
  Acked-now (suc left) s a e = (a, rw (execute_activity, e) e)

  Acked-fine : (left : ℕ) (s : Sys) → IsTotal act → next_fault s.faults ≡ fine → Acked left s
  unfolding try_once
  Acked-fine left s t e = let (a, r) = t s.world in Acked-now left s a (rw (try_once, e) r)

  Acked-later : (left : ℕ) (s : Sys) → Acked left (step act s).1 → Acked (suc left) s
  unfolding execute_activity
  Acked-later left s h = elim (Option-cases (step act s).0) [
    | inl again ↦ (h.0, rw (execute_activity, again) h.1)
    | inr (a, got) ↦ Acked-now (suc left) s a got
  ]

  -- Three attempts are enough under a mild schedule.
  pub execute_activity-returns :
      (left : ℕ) (s : Sys) → IsTotal act → IsMild s.faults → Acked (suc (suc left)) s
  execute_activity-returns left s t h = elim (IsMild-OneFine s.faults h) [
    | inl e ↦ Acked-fine (suc (suc left)) s t e
    | inr (inl e) ↦ Acked-later (suc left) s (Acked-fine (suc left) (step act s).1 t e)
    | inr (inr e) ↦
        Acked-later (suc left) s
          (Acked-later left (step act s).1 (Acked-fine left (step act (step act s).1).1 t e))
  ]
