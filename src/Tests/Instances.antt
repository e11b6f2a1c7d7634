-- ===== src/Tests/Instances.antt =====
-- A Redis server in memory that never fails, a tokenizer with one token per character, scores and
-- an archive.
use sentinal_rag.Base.{
  ltb, if◌then◌else◌, is_none, length, take, keep_if, ℕ, ◌+◌, ◌-◌, ◌/◌, ◌≡◌, refl, Bool, true,
  false, ◌&&◌, some, List, ◌∷◌, map, arith,
}
use sentinal_rag.Base.Dict.{◌===◌, Dict, lookup, insert, erase, lookup-insert, lookup-erase}
use sentinal_rag.Base.Text.{Text, text_eq, starts_with}
use sentinal_rag.Redis.{Redis}
use sentinal_rag.Chunking.{Tokenizer}
use sentinal_rag.Retrieval.{Scores}
use sentinal_rag.Audit.Reconciliation.{Archive}
use sentinal_rag.Audit.Reconciliation.Sets.{elem-cons}

pub some_same {ℓ} : {A : Type ℓ} (a b : A) → some a ≡ some b → b ≡ a
some_same a b e = cc

pub set_nx_holds {ℓ} :
    {V : Type ℓ} (k j : Text) (v : V) (s : Dict Text V) (b : Bool)
    → some (is_none (lookup k s)) ≡ some b
    → lookup j (if is_none (lookup k s) then insert k v s else s)
      ≡ (if b && (k === j) then some v else lookup j s)
set_nx_holds k j v s b e = ground (arith, lookup-insert k j v s)

pub ltb_asym : (a b : ℕ) → ltb a b ≡ true → ltb b a ≡ false
ltb_asym a b h = ground arith

pub ltb_trans : (a b c : ℕ) → ltb a b ≡ false → ltb b c ≡ false → ltb a c ≡ false
ltb_trans a b c h i = ground arith

abbrev pub in_memory : {V : Type 0} → Redis V
in_memory {V = V} = record {
  Store = Dict Text V;
  set = λ k v ttl s. (some tt, insert k v s);
  set_nx =
      λ k v ttl s. (some (is_none (lookup k s)), if is_none (lookup k s) then insert k v s else s);
  get = λ k s. (some (lookup k s), s);
  delete = λ k s. (some tt, erase k s);
  scan = λ cursor pattern s.
      (some (0, keep_if (starts_with (take (length pattern - 1) pattern)) (map (λ p. p.0) s)), s);
  mget = λ ks s. (some (map (λ k. lookup k s) ks), s);
  held = λ s k. lookup k s;
  set_holds = λ k j v ttl s e. lookup-insert k j v s;
  set_nx_claims = λ k v ttl s b e. some_same (is_none (lookup k s)) b e;
  set_nx_holds = λ k j v ttl s b e. set_nx_holds k j v s b e;
  get_reads = λ k s o e. some_same (lookup k s) o e;
  get_keeps = λ k j s. refl;
  delete_drops = λ k j s e. lookup-erase k j s;
  scan_keeps = λ cursor pattern j s. refl;
  mget_keeps = λ ks j s. refl;
}

abbrev pub letters : Tokenizer
letters = record { encode = λ t. t; decode = λ ids. ids }

-- Scores are numbers out of 1000000.
abbrev pub per_million : Scores
per_million = record {
  Score = ℕ;
  reciprocal = λ n. 1000000 / n;
  plus = λ a b. a + b;
  smaller = ltb;
  smaller_asym = ltb_asym;
  smaller_trans = ltb_trans;
}

-- An event is its id, and the archive the list of the ids.
abbrev pub id_archive : Archive ℕ
id_archive = record {
  Objects = List ℕ;
  event_ids = λ a. a;
  put = λ e a. e ∷ a;
  event_id = λ e. e;
  put_lists = λ e a i. elem-cons i e a;
}
