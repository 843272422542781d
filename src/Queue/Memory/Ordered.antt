-- ===== src/Queue/Memory/Ordered.antt =====
-- queue/memory.rs: the record map keeps its keys in order, once each.
use rust_api.Prelude.{inr, inl, Option-cases, ℤ, String, List, [], ◌∷◌, arith, add_i64, as_i64}
use rust_api.Prelude.Maps.{
  get, OrderedMap, Dict, update, Ascending, insert-Ascending, update-Ascending,
  map_values-Ascending,
}
use rust_api.Queue.{JobId, Duration, as_secs, Job, JobStatus, leased}
use rust_api.Queue.Memory.{
  Record, State, new, sweep_record, sweep_expired, enqueue, fresh_record, lease_record, lease_all,
  reserve, modify, ack, nack, extend_record, extend_found, extend_lease, status,
}
use rust_api.Queue.Memory.{Call, enqueues, reserves, acks, nacks, extends, asks, step, run}

abbrev pub IsOrdered : State → Type 0
IsOrdered s = Ascending 0 s.records

pub sweep_expired-IsOrdered : (now : ℤ) (s : State) → IsOrdered s → IsOrdered (sweep_expired now s)
unfolding sweep_expired
sweep_expired-IsOrdered now s = map_values-Ascending 0 (sweep_record now) s.records

enqueue-IsOrdered :
    (inject : Dict String → Dict String) (job : Job) (s : State)
    → IsOrdered s
    → IsOrdered (enqueue inject job s).1
unfolding enqueue
enqueue-IsOrdered inject job s h = ground (
  arith,
  insert-Ascending 0 job.id (fresh_record (record job { headers = inject job.headers })) s.records h
      (omega arith),
)

lease_all-Ascending :
    (worker : String) (expiry : ℤ) (ids : List JobId) (m : OrderedMap Record)
    → Ascending 0 m
    → Ascending 0 (lease_all worker expiry ids m).1
unfolding lease_all
lease_all-Ascending worker expiry [] m h = h
lease_all-Ascending worker expiry (id ∷ ids) m h = ground (
  arith,
  lease_all-Ascending worker expiry ids m h,
  lease_all-Ascending worker expiry ids (update id (lease_record worker expiry) m)
      (update-Ascending 0 id (lease_record worker expiry) m h),
)

modify-IsOrdered :
    (id : JobId) (f : Record → Record) (s : State) → IsOrdered s → IsOrdered (modify id f s).1
unfolding modify
modify-IsOrdered id f s h = ground (arith, h, update-Ascending 0 id f s.records h)

extend_found-IsOrdered :
    (now : ℤ) (lease : Duration) (id : JobId) (st : JobStatus) (s : State)
    → IsOrdered s
    → IsOrdered (extend_found now lease id st s).1
unfolding extend_found
extend_found-IsOrdered now lease id (leased w x) s h = ground (
  arith,
  h,
  update-Ascending 0 id (extend_record (add_i64 now (as_i64 (as_secs lease)))) s.records h,
)
extend_found-IsOrdered now lease id _ s h = h

extend_lease-IsOrdered :
    (now_sweep now : ℤ) (id : JobId) (lease : Duration) (s : State)
    → IsOrdered s
    → IsOrdered (extend_lease now_sweep now id lease s).1
unfolding extend_lease
extend_lease-IsOrdered now_sweep now id lease s h =
    let g = sweep_expired-IsOrdered now_sweep s h in
    elim (Option-cases (get id (sweep_expired now_sweep s).records)) [
      | inl e ↦ rw (e, extend_lease) g
      | inr (r, e) ↦ rw (e, extend_lease) (extend_found-IsOrdered now lease id r.status _ g)
    ]

pub step-IsOrdered : (c : Call) (s : State) → IsOrdered s → IsOrdered (step c s)
unfolding step reserve ack nack status
step-IsOrdered (enqueues inject job) s h = enqueue-IsOrdered inject job s h
step-IsOrdered (reserves t now worker limit lease) s h =
    lease_all-Ascending worker _ _ _ (sweep_expired-IsOrdered t s h)
step-IsOrdered (acks now id result) s h = modify-IsOrdered id _ s h
step-IsOrdered (nacks now id error policy) s h = modify-IsOrdered id _ s h
step-IsOrdered (extends t now id lease) s h = extend_lease-IsOrdered t now id lease s h
step-IsOrdered (asks t id) s h = ground (arith, sweep_expired-IsOrdered t s h)

run-IsOrdered_from : (cs : List Call) (s : State) → IsOrdered s → IsOrdered (run cs s)
unfolding run
run-IsOrdered_from [] s h = h
run-IsOrdered_from (c ∷ cs) s h = run-IsOrdered_from cs (step c s) (step-IsOrdered c s h)

pub run-IsOrdered : (cs : List Call) → IsOrdered (run cs new)
unfolding new
run-IsOrdered cs = run-IsOrdered_from cs _ tt
