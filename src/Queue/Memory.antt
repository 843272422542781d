-- ===== src/Queue/Memory.antt =====
-- queue/memory.rs: each method takes the state behind the mutex and the clock readings it makes,
-- in order, and returns the new state with its result. Metrics keep no state of the queue.
pub mod Consistent
pub mod Ordered
pub mod Reserve
pub mod Exclusive
pub mod Outcomes
mod Tests
use rust_api.Prelude.{
  ℕ, zero, ◌+◌, ℤ, ltb_ℤ, leb_ℤ, add_i64, as_i64, saturating_add_u32, String, Option, none, some,
  List, [], ◌∷◌, map, take, Bool, true, false, not, ◌&&◌, ◌||◌, leb, ◌==◌, if◌then◌else◌,
}
use rust_api.Prelude.Maps.{OrderedMap, Dict, get, insert, update, map_values, lookup, put}
use rust_api.Queue.{
  JobId, Duration, as_secs, Job, LeasedJob, JobStatus, queued, leased, succeeded, failed, dead,
  RetryPolicy, no_retry, retry, not_found, already_leased, lease_expired, invalid, Result, ok, err,
  is_queued,
}

pub record Record : Type 0 where
  pub job : Job
  pub status : JobStatus
  pub worker : Option String
  pub lease_expires_at : Option ℤ
  pub result : Option (List ℕ)
  pub error : Option String
  pub finished_at : Option ℤ

pub record State : Type 0 where
  pub records : OrderedMap Record
  pub idempotency : Dict JobId

unfoldable pub new : State
new = record { records = []; idempotency = [] }

-- The lease has run out at `now`.
unfoldable pub lapsed : ℤ → JobStatus → Bool
lapsed now (leased w expires_at) = leb_ℤ expires_at now
lapsed now _ = false

unfoldable pub requeue : Record → Record
requeue r = record r { status = queued; worker = none; lease_expires_at = none }

unfoldable pub sweep_record : ℤ → Record → Record
unfolding lapsed requeue
sweep_record now r = if lapsed now r.status then requeue r else r

unfoldable pub sweep_expired : ℤ → State → State
unfolding sweep_record map_values
sweep_expired now s = record s { records = map_values (sweep_record now) s.records }

-- The id that an earlier job with the same idempotency key got.
unfoldable pub existing : Option String → Dict JobId → Option JobId
unfolding lookup
existing none m = none
existing (some key) m = lookup key m

unfoldable pub remember : Option String → JobId → Dict JobId → Dict JobId
unfolding put
remember none id m = m
remember (some key) id m = put key id m

unfoldable pub fresh_record : Job → Record
fresh_record job = record {
  job = job;
  status = queued;
  worker = none;
  lease_expires_at = none;
  result = none;
  error = none;
  finished_at = none;
}

-- `inject` is `inject_trace_context`, which writes the propagator's fields into the headers.
unfoldable pub enqueue : (Dict String → Dict String) → Job → State → Result JobId × State
unfolding existing remember fresh_record insert
enqueue inject job s =
    if job.max_attempts == 0
    then (err (invalid "max_attempts must be positive"), s)
    else let traced = record job { headers = inject job.headers } in
      elim (existing job.idempotency_key s.idempotency) [
        | some id ↦ (ok id, s)
        | none ↦ (
          ok job.id,
          record {
            records = insert job.id (fresh_record traced) s.records;
            idempotency = remember job.idempotency_key job.id s.idempotency;
          },
        )
      ]

-- Queued and due.
unfoldable pub available : ℤ → Record → Bool
available now r = is_queued r.status && leb_ℤ r.job.scheduled_at now

unfoldable pub available_ids : ℤ → OrderedMap Record → List JobId
unfolding available
available_ids now [] = []
available_ids now ((id, r) ∷ m) =
    let rest = available_ids now m in if available now r then id ∷ rest else rest

-- The comparator of the sort says `Greater`: a lower priority, or the same and created later.
unfoldable pub after : Job → Job → Bool
after a b =
    ltb_ℤ a.priority b.priority
    || (leb_ℤ a.priority b.priority && leb_ℤ b.priority a.priority)
      && ltb_ℤ b.created_at a.created_at

-- The candidates are keys of the map, so the indexing `state.records[a]` finds both.
unfoldable pub id_after : OrderedMap Record → JobId → JobId → Bool
unfolding after get
id_after m a b = elim (get a m) [
  | none ↦ false
  | some ra ↦ elim (get b m) [ none ↦ false | some rb ↦ after ra.job rb.job ]
]

-- `sort_by` is stable: an element moves behind those that it comes after, and no others.
unfoldable pub sort_insert : OrderedMap Record → JobId → List JobId → List JobId
unfolding id_after
sort_insert m a [] = a ∷ []
sort_insert m a (b ∷ bs) = if id_after m a b then b ∷ sort_insert m a bs else a ∷ b ∷ bs

unfoldable pub sort_ids : OrderedMap Record → List JobId → List JobId
unfolding sort_insert
sort_ids m [] = []
sort_ids m (a ∷ as') = sort_insert m a (sort_ids m as')

unfoldable pub lease_record : String → ℤ → Record → Record
lease_record worker expiry r = record r {
  status = leased worker expiry;
  worker = some worker;
  lease_expires_at = some expiry;
}

unfoldable pub lease_all :
    String → ℤ → List JobId → OrderedMap Record → List LeasedJob × OrderedMap Record
unfolding lease_record get update
lease_all worker expiry [] m = ([], m)
lease_all worker expiry (id ∷ ids) m =
    let skipped = lease_all worker expiry ids m in
    let (jobs, m') = lease_all worker expiry ids (update id (lease_record worker expiry) m) in
    elim (get id m) [
      | none ↦ skipped
      | some r ↦ (record { job = r.job; lease_expires_at = expiry } ∷ jobs, m')
    ]

unfoldable pub reserve : ℤ → ℤ → String → ℕ → Duration → State → List LeasedJob × State
unfolding sweep_expired available_ids sort_ids lease_all
reserve now_sweep now worker limit lease s =
    let swept = (sweep_expired now_sweep s).records in
    let ids = take limit (sort_ids swept (available_ids now swept)) in
    let (jobs, m) = lease_all worker (add_i64 now (as_i64 (as_secs lease))) ids swept in
    (jobs, record s { records = m })

-- `get_mut(&job_id).ok_or(NotFound)?`, then a write through the reference.
unfoldable pub modify : JobId → (Record → Record) → State → Result (Unit {0}) × State
unfolding get update
modify id f s = elim (get id s.records) [
  | none ↦ (err (not_found id), s)
  | some r ↦ (ok tt, record s { records = update id f s.records })
]

unfoldable pub ack_record : ℤ → Option (List ℕ) → Record → Record
ack_record finished result r = record r {
  status = succeeded result finished;
  result = result;
  finished_at = some finished;
  worker = none;
  lease_expires_at = none;
}

unfoldable pub ack : ℤ → JobId → Option (List ℕ) → State → Result (Unit {0}) × State
unfolding modify ack_record
ack finished id result = modify id (ack_record finished result)

unfoldable pub nack_record : ℤ → String → RetryPolicy → Record → Record
nack_record finished error no_retry r = record r {
  status = failed error finished;
  error = some error;
  finished_at = some finished;
  worker = none;
  lease_expires_at = none;
}
nack_record finished error (retry delay) r =
    let attempts = saturating_add_u32 r.job.attempt 1 in
    if leb r.job.max_attempts attempts
    then record r {
      status = dead error finished;
      error = some error;
      finished_at = some finished;
      worker = none;
      lease_expires_at = none;
    }
    else record r {
      job = record r.job {
        attempt = attempts;
        scheduled_at = add_i64 finished (as_i64 (as_secs delay));
      };
      status = queued;
      error = some error;
      worker = none;
      lease_expires_at = none;
    }

unfoldable pub nack : ℤ → JobId → String → RetryPolicy → State → Result (Unit {0}) × State
unfolding modify nack_record
nack finished id error policy = modify id (nack_record finished error policy)

unfoldable pub or_default : Option String → String
or_default none = ""
or_default (some w) = w

unfoldable pub extend_record : ℤ → Record → Record
unfolding or_default
extend_record expiry r = record r {
  status = leased (or_default r.worker) expiry;
  lease_expires_at = some expiry;
}

-- What `extend_lease` answers for a record that it found.
unfoldable pub extend_found : ℤ → Duration → JobId → JobStatus → State → Result (Unit {0}) × State
unfolding extend_record update
extend_found now lease id (leased w expires_at) s =
    if leb_ℤ expires_at now then (err lease_expired, s) else (
      ok tt,
      record s {
        records = update id (extend_record (add_i64 now (as_i64 (as_secs lease)))) s.records;
      },
    )
extend_found now lease id _ s = (err already_leased, s)

unfoldable pub extend_lease : ℤ → ℤ → JobId → Duration → State → Result (Unit {0}) × State
unfolding extend_found sweep_expired get
extend_lease now_sweep now id lease s =
    let swept = sweep_expired now_sweep s in
    elim (get id swept.records) [
      | none ↦ (err (not_found id), swept)
      | some r ↦ extend_found now lease id r.status swept
    ]

unfoldable pub status : ℤ → JobId → State → Result JobStatus × State
unfolding sweep_expired get
status now_sweep id s =
    let swept = sweep_expired now_sweep s in
    elim (get id swept.records) [
      | none ↦ (err (not_found id), swept)
      | some r ↦ (ok r.status, swept)
    ]

-- A method call with the clock readings that it makes.
pub data Call : Type 0 where
  enqueues : (Dict String → Dict String) → Job → Call
  reserves : ℤ → ℤ → String → ℕ → Duration → Call
  acks : ℤ → JobId → Option (List ℕ) → Call
  nacks : ℤ → JobId → String → RetryPolicy → Call
  extends : ℤ → ℤ → JobId → Duration → Call
  asks : ℤ → JobId → Call

unfoldable pub step : Call → State → State
step (enqueues inject job) s = (enqueue inject job s).1
step (reserves t now worker limit lease) s = (reserve t now worker limit lease s).1
step (acks now id result) s = (ack now id result s).1
step (nacks now id error policy) s = (nack now id error policy s).1
step (extends t now id lease) s = (extend_lease t now id lease s).1
step (asks t id) s = (status t id s).1

unfoldable pub run : List Call → State → State
run [] s = s
run (c ∷ cs) s = run cs (step c s)
