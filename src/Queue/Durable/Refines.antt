-- ===== src/Queue/Durable/Refines.antt =====
-- queue/durable.rs: while no access fails, each method answers as the queue in memory does and leaves
-- the rows that stand for what that leaves.
use rust_api.Prelude.{
  ℕ, String, ◌≡◌, refl, inl, inr, Option, none, some, List, leb, ◌==◌, Bool-cases, Option-cases, ℤ,
  leb_ℤ,
}
use rust_api.Prelude.{add_i64, as_i64, saturating_add_u32}
use mathlib.Core.Option
use rust_api.Prelude.Maps.{Dict, get, insert, update, Entries-get}
use rust_api.Queue.{
  JobId, Duration, as_secs, Job, JobStatus, queued, leased, succeeded, failed, dead, RetryPolicy,
  no_retry, retry, Result, ok, err, not_found,
}
use rust_api.Queue.Memory.{Record, State, sweep_record}
use rust_api.Queue.Memory.Consistent.{IsConsistent, IsRecord, Agrees, sweep_expired-IsConsistent}
use rust_api.Queue.Memory.Ordered.{IsOrdered, sweep_expired-IsOrdered}
use rust_api.Queue.Memory as Memory
use rust_api.Queue.Durable.{
  Db, access, access_with, write, set_job, put_job, load, found_or, ack, nack, nacked, status,
  extend_lease, extend_found, enqueue, enqueue_new, existing, insert_new, remember, depth_read,
  scan,
}
use rust_api.Queue.Durable.Projected.{
  stored, project, calm, get-project_jobs, insert-project_jobs, update-project_jobs,
  sweep_expired-calm,
}

-- A load, in the store that stands for a state.
pub load-calm :
    (id : JobId) (s : State)
    → load id (calm (project s))
      ≡ found_or id (Option.map stored (get id s.records)) (calm (project s))
unfolding load access access_with
load-calm id s = rw (get-project_jobs id s.records) refl

-- The row of a record that is there is written over.
pub put_job-calm :
    (id : JobId) (f : Record → Record) (r : Record) (s : State)
    → IsOrdered s
    → get id s.records ≡ some r
    → put_job id (stored (f r)) (calm (project s))
      ≡ (ok tt, calm (project (record s { records = update id f s.records })))
unfolding put_job write access access_with set_job
put_job-calm id f r s h e = rw (update-project_jobs 0 id f r s.records h e) refl

-- What a method in memory answers and leaves, as the rows have it.
abbrev pub refined {ℓ} : {A : Type ℓ} → Result A × State → Result A × Db
refined x = (x.0, calm (project x.1))

modify-missing :
    (id : JobId) (f : Record → Record) (s : State)
    → get id s.records ≡ none
    → Memory.modify id f s ≡ (err (not_found id), s)
unfolding Memory.modify
modify-missing id f s e = rw (e, Memory.modify) refl

modify-found :
    (id : JobId) (f : Record → Record) (r : Record) (s : State)
    → get id s.records ≡ some r
    → Memory.modify id f s ≡ (ok tt, record s { records = update id f s.records })
unfolding Memory.modify
modify-found id f r s e = rw (e, Memory.modify) refl

pub ack-refines :
    (finished : ℤ) (id : JobId) (result : Option (List ℕ)) (s : State)
    → IsOrdered s
    → ack finished id result (calm (project s)) ≡ refined (Memory.ack finished id result s)
unfolding ack found_or Memory.ack Memory.ack_record
ack-refines finished id result s h = elim (Option-cases (get id s.records)) [
  | inl e ↦
      rw (load-calm id s, modify-missing id (Memory.ack_record finished result) s e, e, found_or)
        refl
  | inr (r, e) ↦
      rw (load-calm id s, modify-found id (Memory.ack_record finished result) r s e, e, found_or)
        (put_job-calm id (Memory.ack_record finished result) r s h e)
]

nacked-stored :
    (finished : ℤ) (error : String) (policy : RetryPolicy) (r : Record)
    → nacked finished error policy (stored r) ≡ stored (Memory.nack_record finished error policy r)
unfolding nacked Memory.nack_record
nacked-stored finished error no_retry r = refl
nacked-stored finished error (retry delay) r =
    elim (Bool-cases (leb r.job.max_attempts (saturating_add_u32 r.job.attempt 1))) [
      | inl e ↦ rw e refl
      | inr e ↦ rw e refl
    ]

pub nack-refines :
    (finished : ℤ) (id : JobId) (error : String) (policy : RetryPolicy) (s : State)
    → IsOrdered s
    → nack finished id error policy (calm (project s))
      ≡ refined (Memory.nack finished id error policy s)
unfolding nack found_or Memory.nack
nack-refines finished id error policy s h = elim (Option-cases (get id s.records)) [
  | inl e ↦
      rw
        (
          load-calm id s,
          modify-missing id (Memory.nack_record finished error policy) s e,
          e,
          found_or,
        )
        refl
  | inr (r, e) ↦
      rw
        (
          load-calm id s,
          modify-found id (Memory.nack_record finished error policy) r s e,
          e,
          found_or,
          nacked-stored finished error policy r,
        )
        (put_job-calm id (Memory.nack_record finished error policy) r s h e)
]

pub status-refines :
    (t : ℤ) (id : JobId) (s : State)
    → IsOrdered s
    → status t id (calm (project s)) ≡ refined (Memory.status t id s)
unfolding status found_or Memory.status Memory.sweep_expired
status-refines t id s h = elim (Option-cases (get id (Memory.sweep_expired t s).records)) [
  | inl e ↦
      let right : Memory.status t id s ≡ (err (not_found id), Memory.sweep_expired t s) =
        rw (e, Memory.status) refl in
      rw (sweep_expired-calm t s h, load-calm id (Memory.sweep_expired t s), e, found_or, right)
        refl
  | inr (r, e) ↦
      let right : Memory.status t id s ≡ (ok r.status, Memory.sweep_expired t s) =
        rw (e, Memory.status) refl in
      rw (sweep_expired-calm t s h, load-calm id (Memory.sweep_expired t s), e, found_or, right)
        refl
]

extended-stored :
    (expiry : ℤ) (w : String) (r : Record)
    → r.worker ≡ some w
    → record { job = r.job; status = leased w expiry } ≡ stored (Memory.extend_record expiry r)
unfolding Memory.extend_record Memory.or_default
extended-stored expiry w r a = rw a refl

-- A record under its key, whose worker is the one of its lease.
extend_found-refines :
    (now : ℤ) (lease : Duration) (id : JobId) (r : Record) (x : JobStatus) (s : State)
    → IsOrdered s
    → get id s.records ≡ some r
    → r.status ≡ x
    → Agrees x r
    → extend_found now lease id (record { job = r.job; status = x }) (calm (project s))
      ≡ refined (Memory.extend_found now lease id x s)
unfolding extend_found Memory.extend_found put_job write access access_with
extend_found-refines now lease id r queued s h e q a = refl
extend_found-refines now lease id r (succeeded y f) s h e q a = refl
extend_found-refines now lease id r (failed y f) s h e q a = refl
extend_found-refines now lease id r (dead y f) s h e q a = refl
extend_found-refines now lease id r (leased w expires_at) s h e q a =
    elim (Bool-cases (leb_ℤ expires_at now)) [
      | inl b ↦ rw b refl
      | inr b ↦ rw b (
          rw (extended-stored (add_i64 now (as_i64 (as_secs lease))) w r a.0)
            (put_job-calm id (Memory.extend_record (add_i64 now (as_i64 (as_secs lease)))) r s h e))
    ]

pub extend_lease-refines :
    (t now : ℤ) (id : JobId) (lease : Duration) (s : State)
    → IsOrdered s
    → IsConsistent s
    → extend_lease t now id lease (calm (project s))
      ≡ refined (Memory.extend_lease t now id lease s)
unfolding extend_lease found_or Memory.extend_lease Memory.sweep_expired
extend_lease-refines t now id lease s h c =
    elim (Option-cases (get id (Memory.sweep_expired t s).records)) [
      | inl e ↦
          let right : Memory.extend_lease t now id lease s
              ≡ (err (not_found id), Memory.sweep_expired t s) =
            rw (e, Memory.extend_lease) refl in
          rw (sweep_expired-calm t s h, load-calm id (Memory.sweep_expired t s), e, found_or, right)
            refl
      | inr (r, e) ↦
          let right : Memory.extend_lease t now id lease s
              ≡ Memory.extend_found now lease id r.status (Memory.sweep_expired t s) =
            rw (e, Memory.extend_lease) refl in
          let agrees =
            Entries-get IsRecord id (Memory.sweep_expired t s).records r
              (sweep_expired-IsConsistent t s c) e in
          rw (sweep_expired-calm t s h, load-calm id (Memory.sweep_expired t s), e, found_or, right)
            (extend_found-refines now lease id r r.status (Memory.sweep_expired t s)
              (sweep_expired-IsOrdered t s h) e refl agrees.1)
    ]

existing-calm :
    (key : Option String) (s : State)
    → existing key (calm (project s)) ≡ (ok (Memory.existing key s.idempotency), calm (project s))
unfolding existing Memory.existing access access_with
existing-calm none s = refl
existing-calm (some key) s = refl

remember-same :
    (key : Option String) (id : JobId) (m : Dict JobId)
    → remember key id m ≡ Memory.remember key id m
unfolding remember Memory.remember
remember-same none id m = refl
remember-same (some key) id m = refl

enqueue_new-calm :
    (job : Job) (s : State)
    → enqueue_new job none (calm (project s))
      ≡ refined (
        ok job.id,
        record {
          records = insert job.id (Memory.fresh_record job) s.records;
          idempotency = Memory.remember job.idempotency_key job.id s.idempotency;
        },
      )
unfolding enqueue_new write access access_with insert_new set_job depth_read scan
    Memory.fresh_record
enqueue_new-calm job s =
    rw
      (
        insert-project_jobs job.id (Memory.fresh_record job) s.records,
        remember-same job.idempotency_key job.id s.idempotency,
      )
      refl

pub enqueue-refines :
    (inject : Dict String → Dict String) (job : Job) (s : State)
    → enqueue inject job (calm (project s)) ≡ refined (Memory.enqueue inject job s)
unfolding enqueue Memory.enqueue
enqueue-refines inject job s = elim (Bool-cases (job.max_attempts == 0)) [
  | inl b ↦ rw b refl
  | inr b ↦
      rw (b, existing-calm job.idempotency_key s)
        (elim (Option-cases (Memory.existing job.idempotency_key s.idempotency)) [
          | inl e ↦ rw e (enqueue_new-calm (record job { headers = inject job.headers }) s)
          | inr (id, e) ↦ rw (e, enqueue_new) refl
        ])
]
