-- ===== src/Queue/Durable.antt =====
-- queue/durable.rs: the queue as rows of a key-value store, each access of which may fail. The methods
-- take the clock readings that they make, in order, and answer with the store as they leave it.
pub mod Projected
pub mod Refines
pub mod Reserved
pub mod Simulates
pub mod Raced
mod Tests
use rust_api.Prelude.{
  ℕ, zero, suc, ◌+◌, ◌-◌, ◌*◌, ◌/◌, ◌%◌, ◌^◌, ◌≤◌, ◌<◌, String, ◌≡◌, refl, sym, ap, ◌∙◌, subst, ◌≢◌,
  ◌↔◌, ◌⊎◌, inl, inr, Bool, true, false, not, ◌&&◌, ◌||◌, Option, none, some, List, [], ◌∷◌, ◌++◌,
  map, arith, str_eq, eq_iff, ltb, leb, ◌==◌, if◌then◌else◌, Bool-cases, Option-cases, length, take,
  All, count, ℤ, pos, negsuc, ltb_ℤ, leb_ℤ, ◌≤ℤ◌, ◌<ℤ◌, ◌-ℤ◌,
}
use rust_api.Prelude.{add_i64, as_i64, saturating_add_u32}
use rust_api.Prelude.Maps.{OrderedMap, Dict, get, insert, lookup, put}
use rust_api.Queue.{
  JobId, Duration, as_secs, Job, LeasedJob, JobStatus, queued, leased, succeeded, failed, dead,
  RetryPolicy, no_retry, retry, QueueError, store, not_found, already_leased, lease_expired,
  invalid, Result, ok, err, is_queued,
}

pub record StoredJob : Type 0 where
  pub job : Job
  pub status : JobStatus

-- The rows: `job:{id}`, in the order of the ids, and `idemp:{key}`. Values decode.
pub record Rows : Type 0 where
  pub jobs : OrderedMap StoredJob
  pub idempotency : Dict JobId

-- What becomes of an access: it passes, it fails with nothing done, or it is done but its answer is lost.
pub data Fault : Type 0 where
  passes : Fault
  fails lost : String → Fault

pub record Db : Type 0 where
  pub rows : Rows
  pub faults : List Fault

abbrev pub D {ℓ} : Type ℓ → Type ℓ
D A = Db → Result A × Db

module _ {ℓ κ} {A : Type ℓ} {B : Type κ} where
  abbrev pub resume : (A → D B) → Result A × Db → Result B × Db
  resume f (ok a, d) = f a d
  resume f (err e, d) = (err e, d)

  infixl 5 ◌>>=◌ ◌>>◌
  abbrev pub ◌>>=◌ : D A → (A → D B) → D B
  ◌>>=◌ m f d = resume f (m d)

  abbrev pub ◌>>◌ : D A → D B → D B
  ◌>>◌ m k d = resume (λ _. k) (m d)

abbrev pub pure {ℓ} : {A : Type ℓ} → A → D A
pure a d = (ok a, d)

unfoldable pub access_with {ℓ} :
    {A : Type ℓ} → (Rows → A × Rows) → List Fault → Rows → Result A × Db
access_with g [] r = let (a, r') = g r in (ok a, record { rows = r'; faults = [] })
access_with g (passes ∷ fs) r = let (a, r') = g r in (ok a, record { rows = r'; faults = fs })
access_with g (fails e ∷ fs) r = (err (store e), record { rows = r; faults = fs })
access_with g (lost e ∷ fs) r =
    let (a, r') = g r in (err (store e), record { rows = r'; faults = fs })

unfoldable pub access {ℓ} : {A : Type ℓ} → (Rows → A × Rows) → D A
unfolding access_with
access g d = access_with g d.faults d.rows

unfoldable pub write : (Rows → Rows) → D (Unit {0})
unfolding access
write g = access (λ r. (tt, g r))

unfoldable pub scan : D (OrderedMap StoredJob)
unfolding access
scan = access (λ r. (r.jobs, r))

set_job : JobId → StoredJob → Rows → Rows
unfolding insert
set_job id sj r = record r { jobs = insert id sj r.jobs }

unfoldable pub put_job : JobId → StoredJob → D (Unit {0})
unfolding write set_job
put_job id sj = write (set_job id sj)

lapsed : ℤ → JobStatus → Bool
lapsed now (leased w expires_at) = leb_ℤ expires_at now
lapsed now _ = false

unfoldable pub expired : ℤ → OrderedMap StoredJob → List JobId
unfolding lapsed
expired now [] = []
expired now ((id, sj) ∷ m) =
    let rest = expired now m in if lapsed now sj.status then id ∷ rest else rest

is_leased : JobStatus → Bool
is_leased (leased w e) = true
is_leased _ = false

-- A leased row is queued again, whatever its expiry is by now.
requeued : Option StoredJob → JobId → Rows → Rows
unfolding is_leased set_job
requeued none id r = r
requeued (some sj) id r =
    if is_leased sj.status then set_job id (record sj { status = queued }) r else r

unfoldable pub requeue : JobId → Rows → Rows
unfolding requeued get
requeue id r = requeued (get id r.jobs) id r

unfoldable pub sweep_ids : List JobId → D (Unit {0})
unfolding write requeue
sweep_ids [] = pure tt
sweep_ids (id ∷ ids) = do write (requeue id); sweep_ids ids

unfoldable pub sweep_expired : ℤ → D (Unit {0})
unfolding scan expired sweep_ids
sweep_expired now = do m ← scan; sweep_ids (expired now m)

pub found_or : JobId → Option StoredJob → D StoredJob
found_or id none d = (err (not_found id), d)
found_or id (some sj) d = (ok sj, d)

unfoldable pub load : JobId → D StoredJob
unfolding access found_or get
load id = do found ← access (λ r. (get id r.jobs, r)); found_or id found

unfoldable pub existing : Option String → D (Option JobId)
unfolding access lookup
existing none = pure none
existing (some key) = access (λ r. (lookup key r.idempotency, r))

remember : Option String → JobId → Dict JobId → Dict JobId
unfolding put
remember none id m = m
remember (some key) id m = put key id m

-- The read of the depth, whose errors are ignored.
unfoldable pub depth_read : D (Unit {0})
unfolding scan
depth_read d = (ok tt, (scan d).1)

insert_new : Job → Rows → Rows
unfolding set_job remember
insert_new job r = record (set_job job.id (record { job = job; status = queued }) r) {
  idempotency = remember job.idempotency_key job.id r.idempotency;
}

unfoldable pub enqueue_new : Job → Option JobId → D JobId
unfolding write insert_new depth_read
enqueue_new job (some id) = pure id
enqueue_new job none = do write (insert_new job); depth_read; pure job.id

-- `inject` is `inject_trace_context`.
unfoldable pub enqueue : (Dict String → Dict String) → Job → D JobId
unfolding existing enqueue_new
enqueue inject job d =
    if job.max_attempts == 0
    then (err (invalid "max_attempts must be positive"), d)
    else (existing job.idempotency_key
          >>= enqueue_new (record job { headers = inject job.headers }))
        d

unfoldable pub candidates : ℤ → OrderedMap StoredJob → List StoredJob
candidates now [] = []
candidates now ((id, sj) ∷ m) =
    let rest = candidates now m in
    if is_queued sj.status && leb_ℤ sj.job.scheduled_at now then sj ∷ rest else rest

-- The comparator of the sort says `Greater`: a lower priority, or the same and created later.
after : Job → Job → Bool
after a b =
    ltb_ℤ a.priority b.priority
    || (leb_ℤ a.priority b.priority && leb_ℤ b.priority a.priority)
      && ltb_ℤ b.created_at a.created_at

-- `sort_by` is stable.
unfoldable pub sort_insert : StoredJob → List StoredJob → List StoredJob
unfolding after
sort_insert a [] = a ∷ []
sort_insert a (b ∷ bs) = if after a.job b.job then b ∷ sort_insert a bs else a ∷ b ∷ bs

unfoldable pub sort_jobs : List StoredJob → List StoredJob
unfolding sort_insert
sort_jobs [] = []
sort_jobs (a ∷ as') = sort_insert a (sort_jobs as')

-- What a worker is to take: read in one access, and not locked.
unfoldable pub pick : ℤ → ℕ → D (List StoredJob)
unfolding scan sort_jobs candidates
pick now limit = do m ← scan; pure (take limit (sort_jobs (candidates now m)))

unfoldable pub lease_jobs : String → ℤ → List StoredJob → D (List LeasedJob)
lease_jobs worker expiry [] = pure []
lease_jobs worker expiry (sj ∷ sjs) = do
  put_job sj.job.id (record sj { status = leased worker expiry })
  rest ← lease_jobs worker expiry sjs
  pure (record { job = sj.job; lease_expires_at = expiry } ∷ rest)

unfoldable pub reserve : ℤ → ℤ → String → ℕ → Duration → D (List LeasedJob)
unfolding sweep_expired pick lease_jobs
reserve now_sweep now worker limit lease = do
  sweep_expired now_sweep
  picked ← pick now limit
  lease_jobs worker (add_i64 now (as_i64 (as_secs lease))) picked

unfoldable pub ack : ℤ → JobId → Option (List ℕ) → D (Unit {0})
unfolding load put_job
ack finished id result = do
  sj ← load id
  put_job id (record sj { status = succeeded result finished })

nacked : ℤ → String → RetryPolicy → StoredJob → StoredJob
nacked finished error no_retry sj = record sj { status = failed error finished }
nacked finished error (retry delay) sj =
    let attempts = saturating_add_u32 sj.job.attempt 1 in
    if leb sj.job.max_attempts attempts
    then record sj { status = dead error finished }
    else record {
      job = record sj.job {
        attempt = attempts;
        scheduled_at = add_i64 finished (as_i64 (as_secs delay));
      };
      status = queued;
    }

unfoldable pub nack : ℤ → JobId → String → RetryPolicy → D (Unit {0})
unfolding load put_job nacked
nack finished id error policy = do sj ← load id; put_job id (nacked finished error policy sj)

unfoldable pub extend_found : ℤ → Duration → JobId → StoredJob → D (Unit {0})
unfolding put_job
extend_found now lease id sj d = elim sj.status [
  | leased w expires_at ↦
      if leb_ℤ expires_at now
      then (err lease_expired, d)
      else put_job id (record sj { status = leased w (add_i64 now (as_i64 (as_secs lease))) }) d
  | queued ↦ (err already_leased, d)
  | succeeded x f ↦ (err already_leased, d)
  | failed x f ↦ (err already_leased, d)
  | dead x f ↦ (err already_leased, d)
]

unfoldable pub extend_lease : ℤ → ℤ → JobId → Duration → D (Unit {0})
unfolding sweep_expired load extend_found
extend_lease now_sweep now id lease = do
  sweep_expired now_sweep
  sj ← load id
  extend_found now lease id sj

unfoldable pub status : ℤ → JobId → D JobStatus
unfolding sweep_expired load
status now_sweep id = do sweep_expired now_sweep; sj ← load id; pure sj.status
