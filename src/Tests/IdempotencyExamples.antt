-- ===== src/Tests/IdempotencyExamples.antt =====
-- The theorems on idempotency at concrete inputs.
use sentinal_rag.Base.{
  ◌==◌, ◌&&◌, if◌then◌else◌, arith, ℕ, ◌≡◌, refl, true, Option, none, some, [], ◌∷◌,
}
use sentinal_rag.Base.Dict.{
  nat_eq, string_eq, Dict, lookup, insert, erase, lookup-erase, lookup-insert_self,
}
use sentinal_rag.Base.Text.{Text, codes, text_eq}
use sentinal_rag.Idempotency.{Stored, pending, response}
use sentinal_rag.Idempotency.Keys.{cache_key-injective}
use sentinal_rag.Idempotency.Route.{raised, replayed, fresh, finish, with_key}
use sentinal_rag.Idempotency.Route.Laws.{
  with_key-replays, Lapses, with_key-unclaimed, with_key-unclaimed_fails,
}
use sentinal_rag.Tests.Instances.{in_memory}

abbrev key : Text
key = codes "k"

abbrev Db : Type 0
Db = Dict Text (Stored ℕ)

-- The orchestrator answers 42, or fails.
abbrev answers : Db → Option ℕ × Db
answers s = (some 42, s)

abbrev fails : Db → Option ℕ × Db
fails s = (none, s)

abbrev idle : ℕ → ℕ → Db → Db
idle w n s = s

abbrev claimed : Db
claimed = (key, pending) ∷ []

cache_key-injective_example : (codes "t" ≡ codes "t") × (key ≡ key) × (codes "b" ≡ codes "b")
cache_key-injective_example =
    cache_key-injective (codes "t") key (codes "b") (codes "t") key (codes "b") refl refl refl

abbrev answered : Db
answered = (key, response 7) ∷ []

with_key-replays_example :
    ((finish in_memory true answers (some key) []).0 ≡ fresh 42)
    × ((with_key in_memory true fails idle key (finish in_memory true answers (some key) []).1).0
        ≡ replayed 42)
with_key-replays_example = with_key-replays in_memory answers fails idle key [] 42 refl refl refl

-- The marker lapses after the pause 150 of the second wait, 82 seconds after the request came.
abbrev lapsing : ℕ → ℕ → Db → Db
lapsing w n s = if (w == 1) && (n == 150) then erase key s else s

lapsing-Lapses : Lapses in_memory lapsing key 150
unfolding lookup erase
lapsing-Lapses = record {
  in_second = omega arith;
  in_time = omega arith;
  first = λ n t h. h;
  second = λ n t later h. ground (arith, later, h);
  gone = λ t h. ground (arith, lookup-erase key key t);
}

with_key-unclaimed_example :
    (t : Db) × (with_key in_memory true answers lapsing key claimed
      ≡ finish in_memory true answers (some key) t)
    × (lookup key t ≡ none)
unfolding lookup
with_key-unclaimed_example =
    with_key-unclaimed in_memory answers lapsing key claimed 150 (λ t. refl) (λ t. refl)
      lapsing-Lapses refl

-- A third request claims the key while the run fails.
abbrev third_claims : Db → Option ℕ × Db
third_claims s = (none, insert key pending s)

with_key-unclaimed_fails_example :
    ((with_key in_memory true third_claims lapsing key claimed).0 ≡ raised)
    × (lookup key (with_key in_memory true third_claims lapsing key claimed).1 ≡ none)
unfolding lookup
with_key-unclaimed_fails_example =
    with_key-unclaimed_fails in_memory third_claims lapsing key claimed 150 (λ t. refl) (λ t. refl)
      lapsing-Lapses refl (λ t free. (refl, lookup-insert_self key pending t)) (λ t. refl)
