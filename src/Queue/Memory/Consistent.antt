-- ===== src/Queue/Memory/Consistent.antt =====
-- queue/memory.rs: the lease fields of a record agree with its status, after every method.
use rust_api.Prelude.{
  subst, Option-cases, ℕ, ℤ, ◌≡◌, refl, String, Option, none, some, List, [], ◌∷◌, inl, inr, arith,
  add_i64, as_i64,
}
use rust_api.Prelude.Maps.{
  OrderedMap, Dict, get, update, Entries, Entries-get, Entries-insert, Entries-update,
  Entries-update_at, Entries-map_values,
}
use rust_api.Queue.{
  JobId, Duration, as_secs, Job, JobStatus, queued, leased, succeeded, failed, dead, RetryPolicy,
  no_retry, retry,
}
use rust_api.Queue.Memory.{
  asks, extends, nacks, acks, reserves, enqueues, Call, run, step, Record, State, new, requeue,
  sweep_record, sweep_expired, enqueue, fresh_record, lease_record, lease_all, reserve, modify,
  ack_record, ack, nack_record, nack, extend_record, extend_found, extend_lease, status,
}

-- What a status says of the other fields of its record.
abbrev pub Agrees : JobStatus → Record → Type 0
Agrees queued r = (r.worker ≡ none) × (r.lease_expires_at ≡ none)
Agrees (leased w e) r = (r.worker ≡ some w) × (r.lease_expires_at ≡ some e)
Agrees (succeeded x f) r =
    (r.worker ≡ none) × (r.lease_expires_at ≡ none) × (r.result ≡ x) × (r.finished_at ≡ some f)
Agrees (failed x f) r =
    (r.worker ≡ none) × (r.lease_expires_at ≡ none) × (r.error ≡ some x) × (r.finished_at ≡ some f)
Agrees (dead x f) r =
    (r.worker ≡ none) × (r.lease_expires_at ≡ none) × (r.error ≡ some x) × (r.finished_at ≡ some f)

-- The record stands under its job's id, and its fields agree with its status.
abbrev pub IsRecord : ℕ → Record → Type 0
IsRecord k r = (r.job.id ≡ k) × Agrees r.status r

abbrev pub IsConsistent : State → Type 0
IsConsistent s = Entries IsRecord s.records

requeue-IsRecord : (k : ℕ) (r : Record) → IsRecord k r → IsRecord k (requeue r)
unfolding requeue
requeue-IsRecord k r h = (h.0, (refl, refl))

sweep_record-IsRecord :
    (now : ℤ) (k : ℕ) (r : Record) → IsRecord k r → IsRecord k (sweep_record now r)
unfolding sweep_record
sweep_record-IsRecord now k r h = ground (arith, requeue-IsRecord k r h)

pub sweep_expired-IsConsistent :
    (now : ℤ) (s : State) → IsConsistent s → IsConsistent (sweep_expired now s)
unfolding sweep_expired
sweep_expired-IsConsistent now s =
    Entries-map_values IsRecord (sweep_record now) s.records (sweep_record-IsRecord now)

enqueue-IsConsistent :
    (inject : Dict String → Dict String) (job : Job) (s : State)
    → IsConsistent s
    → IsConsistent (enqueue inject job s).1
unfolding enqueue fresh_record
enqueue-IsConsistent inject job s h = ground (
  arith,
  Entries-insert IsRecord job.id (fresh_record (record job { headers = inject job.headers }))
      s.records (refl, (refl, refl)) h,
)

lease_all-IsRecord :
    (worker : String) (expiry : ℤ) (ids : List JobId) (m : OrderedMap Record)
    → Entries IsRecord m
    → Entries IsRecord (lease_all worker expiry ids m).1
unfolding lease_all lease_record
lease_all-IsRecord worker expiry [] m h = h
lease_all-IsRecord worker expiry (id ∷ ids) m h = ground (
  arith,
  lease_all-IsRecord worker expiry ids m h,
  lease_all-IsRecord worker expiry ids (update id (lease_record worker expiry) m)
      (Entries-update IsRecord id (lease_record worker expiry) m (λ r g. (g.0, (refl, refl))) h),
)

reserve-IsConsistent :
    (now_sweep now : ℤ) (worker : String) (limit : ℕ) (lease : Duration) (s : State)
    → IsConsistent s
    → IsConsistent (reserve now_sweep now worker limit lease s).1
unfolding reserve
reserve-IsConsistent now_sweep now worker limit lease s h =
    lease_all-IsRecord worker _ _ _ (sweep_expired-IsConsistent now_sweep s h)

modify-IsConsistent :
    (id : JobId) (f : Record → Record) (s : State)
    → ((k : ℕ) (r : Record) → IsRecord k r → IsRecord k (f r))
    → IsConsistent s
    → IsConsistent (modify id f s).1
unfolding modify
modify-IsConsistent id f s p h = ground (arith, h, Entries-update IsRecord id f s.records (p id) h)

ack_record-IsRecord :
    (finished : ℤ) (result : Option (List ℕ)) (k : ℕ) (r : Record)
    → IsRecord k r
    → IsRecord k (ack_record finished result r)
unfolding ack_record
ack_record-IsRecord finished result k r h = (h.0, (refl, refl, refl, refl))

nack_record-IsRecord :
    (finished : ℤ) (error : String) (policy : RetryPolicy) (k : ℕ) (r : Record)
    → IsRecord k r
    → IsRecord k (nack_record finished error policy r)
unfolding nack_record
nack_record-IsRecord finished error no_retry k r h = (h.0, (refl, refl, refl, refl))
nack_record-IsRecord finished error (retry delay) k r h = ground arith

extend_record-IsRecord :
    (expiry : ℤ) (k : ℕ) (r : Record) (w : String) (x : ℤ)
    → r.status ≡ leased w x
    → IsRecord k r
    → IsRecord k (extend_record expiry r)
unfolding extend_record
extend_record-IsRecord expiry k r w x e h =
    let g : Agrees (leased w x) r = subst (λ st. Agrees st r) e h.1 in (h.0, (rw g.0, refl))

extend_found-IsConsistent :
    (now : ℤ) (lease : Duration) (id : JobId) (s : State) (r : Record) (st : JobStatus)
    → r.status ≡ st
    → get id s.records ≡ some r
    → IsConsistent s
    → IsConsistent (extend_found now lease id st s).1
unfolding extend_found
extend_found-IsConsistent now lease id s r (leased w x) eq e h = ground (
  arith,
  h,
  Entries-update_at IsRecord id (extend_record (add_i64 now (as_i64 (as_secs lease)))) s.records r e
      (extend_record-IsRecord (add_i64 now (as_i64 (as_secs lease))) id r w x eq
        (Entries-get IsRecord id s.records r h e))
      h,
)
extend_found-IsConsistent now lease id s r _ eq e h = h

extend_lease-IsConsistent :
    (now_sweep now : ℤ) (id : JobId) (lease : Duration) (s : State)
    → IsConsistent s
    → IsConsistent (extend_lease now_sweep now id lease s).1
unfolding extend_lease
extend_lease-IsConsistent now_sweep now id lease s h =
    let swept = sweep_expired now_sweep s in
    let g = sweep_expired-IsConsistent now_sweep s h in
    elim (Option-cases (get id swept.records)) [
      | inl e ↦ rw (e, extend_lease) g
      | inr (r, e) ↦
          rw (e, extend_lease) (extend_found-IsConsistent now lease id swept r r.status refl e g)
    ]

pub step-IsConsistent : (c : Call) (s : State) → IsConsistent s → IsConsistent (step c s)
unfolding step ack nack status
step-IsConsistent (enqueues inject job) s h = enqueue-IsConsistent inject job s h
step-IsConsistent (reserves t now worker limit lease) s h =
    reserve-IsConsistent t now worker limit lease s h
step-IsConsistent (acks now id result) s h =
    modify-IsConsistent id _ s (ack_record-IsRecord now result) h
step-IsConsistent (nacks now id error policy) s h =
    modify-IsConsistent id _ s (nack_record-IsRecord now error policy) h
step-IsConsistent (extends t now id lease) s h = extend_lease-IsConsistent t now id lease s h
step-IsConsistent (asks t id) s h = ground (arith, sweep_expired-IsConsistent t s h)

run-IsConsistent_from : (cs : List Call) (s : State) → IsConsistent s → IsConsistent (run cs s)
unfolding run
run-IsConsistent_from [] s h = h
run-IsConsistent_from (c ∷ cs) s h = run-IsConsistent_from cs (step c s) (step-IsConsistent c s h)

-- After any sequence of calls on a new queue, every record stands under its own job's id, a leased
-- record names its worker and expiry in the lease fields, no other record does, and a finished
-- record carries the result or error and the time that its status carries.
pub run-IsConsistent : (cs : List Call) → IsConsistent (run cs new)
unfolding new
run-IsConsistent cs = run-IsConsistent_from cs _ tt
