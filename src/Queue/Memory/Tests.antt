-- ===== src/Queue/Memory/Tests.antt =====
-- Runs of the queue code on a queue of two jobs.
use rust_api.Queue.Memory.Outcomes.{nack_all_dead_letters, Retried, nack_all}
use rust_api.Queue.Memory.Exclusive.{reserve-reserve_disjoint}
use rust_api.Queue.Memory.Consistent.{run-IsConsistent, IsConsistent}
use rust_api.Queue.Memory.Reserve.{reserve-Leases, Leases, ids_of}
use rust_api.Prelude.Maps.{get}
use rust_api.Queue.Memory.Ordered.{IsOrdered}
use rust_api.Queue.Memory.{
  Call, sweep_expired, enqueues, reserves, run, Record, lease_record, new, reserve, State,
}
use rust_api.Queue.{dead, queued, as_secs, leased, Duration, Job}
use rust_api.Prelude.{
  List, as_i64, add_i64, ◌≡◌, refl, none, some, [], ◌∷◌, arith, count, pos, ◌<ℤ◌,
}

abbrev hour : Duration
hour = 3600000000000

abbrev mail : Job
mail = record {
  id = 1;
  kind = "mail";
  payload = [];
  priority = pos 0;
  attempt = 0;
  max_attempts = 2;
  created_at = pos 0;
  scheduled_at = pos 0;
  idempotency_key = some "once";
  headers = [];
}

abbrev urgent : Job
urgent = record mail { id = 2; priority = pos 9; idempotency_key = none }

abbrev fresh : Job → Record
fresh j = record {
  job = j;
  status = queued;
  worker = none;
  lease_expires_at = none;
  result = none;
  error = none;
  finished_at = none;
}

-- Both jobs are queued.
abbrev two : State
two = record { records = (1, fresh mail) ∷ (2, fresh urgent) ∷ []; idempotency = ("once", 1) ∷ [] }

two-IsConsistent : IsConsistent two
two-IsConsistent = ((refl, (refl, refl)), ((refl, (refl, refl)), tt))

two-IsOrdered : IsOrdered two
two-IsOrdered = ground arith

-- The more urgent job is leased to `ann` until 3610.
abbrev one_leased : State
one_leased = record {
  records =
      (1, fresh mail)
      ∷ (
        2,
        record (fresh urgent) {
          status = leased "ann" (pos 3610);
          worker = some "ann";
          lease_expires_at = some (pos 3610);
        },
      )
      ∷ [];
  idempotency = ("once", 1) ∷ [];
}

one_leased-IsConsistent : IsConsistent one_leased
one_leased-IsConsistent = ((refl, (refl, refl)), ((refl, (refl, refl)), tt))

one_leased-IsOrdered : IsOrdered one_leased
one_leased-IsOrdered = ground arith

reserve_urgent : (reserve (pos 10) (pos 10) "ann" 1 hour two).1 ≡ one_leased
unfolding reserve lease_record add_i64 as_i64
reserve_urgent = refl

abbrev calls : List Call
calls = enqueues (λ h. h) mail ∷ reserves (pos 10) (pos 10) "ann" 1 hour ∷ []

run-IsConsistent_example : IsConsistent (run calls new)
run-IsConsistent_example = run-IsConsistent calls

reserve-Leases_example :
    Leases 1
      (pos 10)
      "ann"
      (add_i64 (pos 10) (as_i64 (as_secs hour)))
      (sweep_expired (pos 10) two).records
      (reserve (pos 10) (pos 10) "ann" 1 hour two).0
      (reserve (pos 10) (pos 10) "ann" 1 hour two).1.records
reserve-Leases_example =
    reserve-Leases (pos 10) (pos 10) "ann" 1 hour two two-IsConsistent two-IsOrdered

handed_urgent : count 2 (ids_of (reserve (pos 10) (pos 10) "ann" 1 hour two).0) ≡ 1
unfolding reserve lease_record add_i64 as_i64
handed_urgent = refl

lease_runs : pos 20 <ℤ add_i64 (pos 10) (as_i64 (as_secs hour))
unfolding add_i64 as_i64
lease_runs = ground arith

reserve-reserve_disjoint_example :
    count 2 (
      ids_of
        (reserve (pos 20) (pos 20) "bob" 5 hour (reserve (pos 10) (pos 10) "ann" 1 hour two).1).0)
    ≡ 0
reserve-reserve_disjoint_example =
    reserve-reserve_disjoint (pos 10) (pos 10) "ann" 1 hour (pos 20) (pos 20) "bob" 5 hour two 2
      two-IsConsistent two-IsOrdered lease_runs handed_urgent

nack_all_dead_letters_example :
    ((r' : Record) × (get 1 (nack_all 1 ((pos 5, "busy", hour) ∷ []) two).records ≡ some r')
      × Retried 1 (fresh mail) r')
    × ((r' : Record) × (get 1
            (nack_all 1 ((pos 5, "busy", hour) ∷ (pos 9, "gone", hour) ∷ []) two).records
          ≡ some r')
        × (r'.status ≡ dead "gone" (pos 9)))
unfolding get
nack_all_dead_letters_example =
    nack_all_dead_letters 1 ((pos 5, "busy", hour) ∷ []) (pos 9) "gone" hour two (fresh mail) refl
      refl (omega arith) refl
