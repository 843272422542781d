-- ===== src/Queue/Memory/Outcomes.antt =====
-- queue/memory.rs: idempotent enqueueing, acknowledgement, and the end of retries.
use rust_api.Prelude.Maps.{update, get-map_values, get-update, lookup-put, get, Dict}
use rust_api.Queue.{
  Result, dead, retry, RetryPolicy, succeeded, is_queued, not_found, ok, invalid, err, Job,
  Duration, JobId,
}
use rust_api.Queue.Memory.{
  sweep_record, ack_record, nack_record, nack, State, ack, Record, enqueue, status,
}
use rust_api.Prelude.{
  ap, ◌∙◌, length, saturating_add_u32, true, ◌++◌, none, some, [], ◌∷◌, ◌+◌, ◌<◌, ◌^◌, eq_iff, ◌↔◌,
  ◌≢◌, Option, List, String, ℤ, ℕ, ◌≡◌, refl, arith,
}

-- An accepted job with an idempotency key fixes the id: any later job with the same key, whatever
-- else it holds, is answered with that id and changes nothing.
pub enqueue_idempotent :
    (inject inject' : Dict String → Dict String) (job job' : Job) (s : State) (key : String)
    (id : JobId)
    → job.idempotency_key ≡ some key
    → job'.idempotency_key ≡ some key
    → job'.max_attempts ≢ 0
    → (enqueue inject job s).0 ≡ ok id
    → enqueue inject' job' (enqueue inject job s).1 ≡ (ok id, (enqueue inject job s).1)
unfolding enqueue
enqueue_idempotent inject inject' job job' s key id k k' valid accepted =
    ground (arith, lookup-put key key job.id s.idempotency, eq_iff key key)

-- Exactly the jobs with no attempts allowed are rejected, and a rejection changes nothing.
pub enqueue_rejects :
    (inject : Dict String → Dict String) (job : Job) (s : State)
    → (enqueue inject job s ≡ (err (invalid "max_attempts must be positive"), s))
      ↔ (job.max_attempts ≡ 0)
unfolding enqueue
enqueue_rejects inject job s =
    (λ h. ground (arith, ap (λ (p : Result JobId × State). p.0) h), λ h. ground arith)

-- Right after an acknowledgement the status, whatever time it is asked for, is success with the
-- acknowledged result and time, or not found if the job is not in the queue.
pub status-ack :
    (t finished : ℤ) (id : JobId) (result : Option (List ℕ)) (s : State)
    → (status t id (ack finished id result s).1).0 ≡ elim (get id s.records) [
      | none ↦ err (not_found id)
      | some r ↦ ok (succeeded result finished)
    ]
unfolding status ack
status-ack t finished id result s = ground (
  arith,
  get-update id id (ack_record finished result) s.records,
  get-map_values id (sweep_record t) (update id (ack_record finished result) s.records),
  get-map_values id (sweep_record t) s.records,
)

-- A failure report: its time, its message and the delay before the next attempt.
abbrev pub Failure : Type 0
Failure = ℤ × String × Duration

-- The job is nacked for each failure in turn, always with a retry policy.
pub nack_all : JobId → List Failure → State → State
nack_all id [] s = s
nack_all id ((t, e, d) ∷ fs) s = nack_all id fs (nack t id e (retry d) s).1

-- Where a record stands after `n` failures.
abbrev pub Retried : ℕ → Record → Record → Type 0
Retried n r r' =
    (r'.job.max_attempts ≡ r.job.max_attempts)
    × (r'.job.attempt ≡ r.job.attempt + n)
    × (is_queued r'.status ≡ true)

nack_found :
    (t : ℤ) (id : JobId) (e : String) (p : RetryPolicy) (s : State) (r : Record)
    → get id s.records ≡ some r
    → get id (nack t id e p s).1.records ≡ some (nack_record t e p r)
unfolding nack
nack_found t id e p s r h = ground (arith, get-update id id (nack_record t e p) s.records)

nack_record_survives :
    (t : ℤ) (e : String) (d : Duration) (r : Record)
    → r.job.max_attempts < 2 ^ 32
    → r.job.attempt + 1 < r.job.max_attempts
    → Retried 1 r (nack_record t e (retry d) r)
unfolding nack_record saturating_add_u32
nack_record_survives t e d r m h = ground arith

nack_record_dies :
    (t : ℤ) (e : String) (d : Duration) (r : Record)
    → r.job.max_attempts < 2 ^ 32
    → r.job.attempt + 1 ≡ r.job.max_attempts
    → (nack_record t e (retry d) r).status ≡ dead e t
unfolding nack_record saturating_add_u32
nack_record_dies t e d r m h = ground arith

nack_all_retries :
    (id : JobId) (fs : List Failure) (s : State) (r : Record)
    → get id s.records ≡ some r
    → is_queued r.status ≡ true
    → r.job.max_attempts < 2 ^ 32
    → r.job.attempt + length fs < r.job.max_attempts
    → (r' : Record) × (get id (nack_all id fs s).records ≡ some r') × Retried (length fs) r r'
unfolding nack_all
nack_all_retries id [] s r found q m h = (r, found, (refl, omega arith, q))
nack_all_retries id ((t, e, d) ∷ fs) s r found q m h =
    let r1 = nack_record t e (retry d) r in
    let f1 = nack_found t id e (retry d) s r found in
    let facts = nack_record_survives t e d r m (omega arith) in
    let (r', found', (k1, k2, k3)) =
      nack_all_retries id fs (nack t id e (retry d) s).1 r1 f1 facts.2 (omega (arith, facts.0))
        (omega (arith, facts.0, facts.1)) in
    (r', found', (k1 ∙ facts.0, omega (arith, facts.1), k3))

nack_all-append :
    (id : JobId) (fs gs : List Failure) (s : State)
    → nack_all id (fs ++ gs) s ≡ nack_all id gs (nack_all id fs s)
unfolding nack_all
nack_all-append id [] gs s = refl
nack_all-append id ((t, e, d) ∷ fs) gs s = nack_all-append id fs gs (nack t id e (retry d) s).1

-- A queued job with `n` attempts left survives any `n - 1` failures, queued again with each of them
-- counted, and the `n`th is its last: the job is then dead with that failure's message and time.
pub nack_all_dead_letters :
    (id : JobId) (fs : List Failure) (t : ℤ) (e : String) (d : Duration) (s : State) (r : Record)
    → get id s.records ≡ some r
    → is_queued r.status ≡ true
    → r.job.max_attempts < 2 ^ 32
    → r.job.attempt + length fs + 1 ≡ r.job.max_attempts
    → ((r' : Record) × (get id (nack_all id fs s).records ≡ some r') × Retried (length fs) r r')
      × ((r' : Record) × (get id (nack_all id (fs ++ (t, e, d) ∷ []) s).records ≡ some r')
          × (r'.status ≡ dead e t))
nack_all_dead_letters id fs t e d s r found q m h =
    let before = nack_all_retries id fs s r found q m (omega arith) in
    let (r1, f1, (k1, k2, _)) = before in
    (
      before,
      (
        nack_record t e (retry d) r1,
        rw nack_all-append (unfold nack_all in nack_found t id e (retry d) _ r1 f1),
        nack_record_dies t e d r1 (omega (arith, k1)) (omega (arith, k1, k2)),
      ),
    )
