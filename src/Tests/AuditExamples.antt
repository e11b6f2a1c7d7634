-- ===== src/Tests/AuditExamples.antt =====
-- The theorems on the reconciliation at concrete inputs.
use sentinal_rag.Base.{
  ◌==◌, length, any, ℕ, zero, suc, ◌+◌, ◌≡◌, refl, ap, true, false, ◌||◌, Option, none, some, [],
  ◌∷◌, map, arith,
}
use sentinal_rag.Base.Text.{Text, codes}
use sentinal_rag.Audit.Event.{AuditEvent, Formats, slash, day_prefix, list_s3, put_s3}
use sentinal_rag.Audit.Event.Laws.{AreUuids, list_s3-put_s3}
use sentinal_rag.Audit.Reconciliation.{
  elem, place_once, sorted_set, diff_event_sets, reconcile_one_tenant,
}
use sentinal_rag.Audit.Reconciliation.Laws.{reconcile_one_tenant-restores}
use sentinal_rag.Audit.Service.{Sink, InMemory, write_in_memory, Service, record_event, drain}
use sentinal_rag.Audit.Service.Laws.{refusals, drain-record_event}
use sentinal_rag.Tests.Instances.{id_archive}

abbrev found : ℕ → Option ℕ
found i = some i

reconcile_one_tenant-restores_example :
    elem 3 (reconcile_one_tenant id_archive (3 ∷ 1 ∷ []) found true 10 (1 ∷ 5 ∷ [])).1 ≡ true
unfolding diff_event_sets elem sorted_set place_once
reconcile_one_tenant-restores_example =
    reconcile_one_tenant-restores id_archive found (3 ∷ 1 ∷ []) 10 (1 ∷ 5 ∷ []) 3
      ((3, refl, refl), tt) (omega arith) refl

abbrev memory : Sink ℕ
memory = record { State = InMemory ℕ; write = write_in_memory }

-- The second of the two secondary sinks will fail.
abbrev service : Service memory
service = record {
  primary = record { records = []; fail = false };
  secondaries = record { records = []; fail = false } ∷ record { records = []; fail = true } ∷ [];
  inflight = [];
  failures = 0;
}

drain-record_event_example :
    ((drain memory (record_event memory 7 service).1).secondaries
      ≡ map (λ s. (write_in_memory 7 s).1) service.secondaries)
    × ((drain memory (record_event memory 7 service).1).failures
        ≡ 0 + refusals memory 7 service.secondaries)
    × ((drain memory (record_event memory 7 service).1).inflight ≡ [])
unfolding write_in_memory
drain-record_event_example = drain-record_event memory 7 service refl refl

abbrev zeros : ℕ → Text
zeros zero = []
zeros (suc n) = 48 ∷ zeros n

length-zeros : (n : ℕ) → length (zeros n) ≡ n
length-zeros zero = refl
length-zeros (suc n) = ap suc (length-zeros n)

zeros-have_no_slash : (n : ℕ) → any slash (zeros n) ≡ false
zeros-have_no_slash zero = refl
zeros-have_no_slash (suc n) = zeros-have_no_slash n

-- UUIDs written in the unary system.
abbrev unary : Formats
unary = record { show_uuid = zeros; parse_uuid = λ t. some (length t); padded = λ width n. zeros n }

unary-AreUuids : AreUuids unary
unary-AreUuids = record {
  parsed = λ i. ap (λ n. some n) (length-zeros i);
  no_slash = zeros-have_no_slash;
}

abbrev event_at : ℕ → ℕ → AuditEvent
event_at id hour = record {
  id = id;
  tenant_id = 2;
  actor_user_id = none;
  event_type = codes "query.executed";
  resource_type = none;
  resource_id = none;
  action = codes "execute";
  ip_address = none;
  user_agent = none;
  request_id = none;
  before_state = none;
  after_state = none;
  metadata = [];
  created_at = record { year = 3; month = 1; day = 2; hour = hour; second = 0 };
}

list_s3-put_s3_example :
    elem 4 (
      list_s3 unary
        (day_prefix unary 2 (event_at 7 5).created_at)
        (put_s3 unary (event_at 7 5) (put_s3 unary (event_at 4 6) [])))
    ≡ ((7 == 4)
        || elem 4 (
            list_s3 unary
              (day_prefix unary 2 (event_at 7 5).created_at)
              (put_s3 unary (event_at 4 6) [])))
list_s3-put_s3_example =
    list_s3-put_s3 unary unary-AreUuids (event_at 7 5) (put_s3 unary (event_at 4 6) []) 4
