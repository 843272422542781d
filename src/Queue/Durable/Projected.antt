-- ===== src/Queue/Durable/Projected.antt =====
-- queue/durable.rs: the rows that stand for a state of the queue in memory.
use rust_api.Prelude.{
  ℕ, suc, ◌<◌, ◌≡◌, refl, ap, ◌∙◌, inl, inr, true, Option, none, some, List, [], ◌∷◌, arith, ◌==◌,
  if◌then◌else◌, Bool-cases, ℤ,
}
use mathlib.Core.Option
use rust_api.Prelude.Maps.{OrderedMap, get, insert, update, map_values, Ascending, get_below}
use rust_api.Queue.{JobId, JobStatus, queued, leased, succeeded, failed, dead, ok}
use rust_api.Queue.Memory.{Record, State, sweep_record}
use rust_api.Queue.Memory as Memory
use rust_api.Queue.Durable.{
  is_leased, StoredJob, Rows, Db, expired, lapsed, requeue, requeued, set_job, sweep_ids,
  sweep_expired, scan, write, access, access_with,
}

-- The stored part of a record.
abbrev pub stored : Record → StoredJob
stored r = record { job = r.job; status = r.status }

unfoldable pub project_jobs : OrderedMap Record → OrderedMap StoredJob
project_jobs [] = []
project_jobs ((k, r) ∷ m) = (k, stored r) ∷ project_jobs m

abbrev pub project : State → Rows
project s = record { jobs = project_jobs s.records; idempotency = s.idempotency }

-- A store no access of which fails.
abbrev pub calm : Rows → Db
calm r = record { rows = r; faults = [] }

pub get-project_jobs :
    (k : ℕ) (m : OrderedMap Record) → get k (project_jobs m) ≡ Option.map stored (get k m)
unfolding get project_jobs
get-project_jobs k [] = refl
get-project_jobs k ((j, r) ∷ m) = ground (arith, get-project_jobs k m)

pub insert-project_jobs :
    (k : ℕ) (r : Record) (m : OrderedMap Record)
    → insert k (stored r) (project_jobs m) ≡ project_jobs (insert k r m)
unfolding insert project_jobs
insert-project_jobs k r [] = refl
insert-project_jobs k r ((j, x) ∷ m) = ground (arith, insert-project_jobs k r m)

-- A row that is there is written over.
pub update-project_jobs :
    (n k : ℕ) (f : Record → Record) (r : Record) (m : OrderedMap Record)
    → Ascending n m
    → get k m ≡ some r
    → insert k (stored (f r)) (project_jobs m) ≡ project_jobs (update k f m)
unfolding get insert update project_jobs
update-project_jobs n k f r [] h e = absurd (cc)
update-project_jobs n k f r ((j, x) ∷ m) h e =
    ground (arith, update-project_jobs (suc j) k f r m h.1, get_below (suc j) k m h.1)

-- All ids are above.
abbrev Above : ℕ → List ℕ → Type 0
Above k [] = Unit {0}
Above k (i ∷ ids) = (k < i) × Above k ids

unfoldable requeue_all : List JobId → Rows → Rows
requeue_all [] r = r
requeue_all (id ∷ ids) r = requeue_all ids (requeue id r)

sweep_ids-calm :
    (ids : List JobId) (r : Rows) → sweep_ids ids (calm r) ≡ (ok tt, calm (requeue_all ids r))
unfolding sweep_ids requeue_all write access access_with
sweep_ids-calm [] r = refl
sweep_ids-calm (id ∷ ids) r = sweep_ids-calm ids (requeue id r)

abbrev with_jobs : Rows → OrderedMap StoredJob → Rows
with_jobs r m = record r { jobs = m }

requeued-below :
    (found : Option StoredJob) (id k : ℕ) (sj : StoredJob) (m : OrderedMap StoredJob) (r : Rows)
    → k < id
    → requeued found id (with_jobs r ((k, sj) ∷ m))
      ≡ with_jobs r ((k, sj) ∷ (requeued found id (with_jobs r m)).jobs)
unfolding requeued set_job insert
requeued-below none id k sj m r b = refl
requeued-below (some x) id k sj m r b = elim (Bool-cases (is_leased x.status)) [
  | inr e ↦ rw e refl
  | inl e ↦ rw e (ground arith)
]

requeued-jobs :
    (found : Option StoredJob) (id : ℕ) (m : OrderedMap StoredJob) (r : Rows)
    → with_jobs r (requeued found id (with_jobs r m)).jobs ≡ requeued found id (with_jobs r m)
unfolding requeued set_job
requeued-jobs none id m r = refl
requeued-jobs (some x) id m r = elim (Bool-cases (is_leased x.status)) [
  | inl e ↦ rw e refl
  | inr e ↦ rw e refl
]

get-above :
    (k id : ℕ) (sj : StoredJob) (m : OrderedMap StoredJob)
    → k < id
    → get id ((k, sj) ∷ m) ≡ get id m
unfolding get
get-above k id sj m b = ground arith

-- A row below is left alone.
requeue-below :
    (id k : ℕ) (sj : StoredJob) (m : OrderedMap StoredJob) (r : Rows)
    → k < id
    → requeue id (with_jobs r ((k, sj) ∷ m))
      ≡ with_jobs r ((k, sj) ∷ (requeue id (with_jobs r m)).jobs)
unfolding requeue
requeue-below id k sj m r b = rw (get-above k id sj m b) (requeued-below (get id m) id k sj m r b)

requeue_all-below :
    (ids : List JobId) (k : ℕ) (sj : StoredJob) (m : OrderedMap StoredJob) (r : Rows)
    → Above k ids
    → requeue_all ids (with_jobs r ((k, sj) ∷ m))
      ≡ with_jobs r ((k, sj) ∷ (requeue_all ids (with_jobs r m)).jobs)
unfolding requeue_all requeue
requeue_all-below [] k sj m r h = refl
requeue_all-below (id ∷ ids) k sj m r h = rw (requeue-below id k sj m r h.0) (
    requeue_all-below ids k sj (requeue id (with_jobs r m)).jobs r h.1
    ∙ ap (λ s. with_jobs r ((k, sj) ∷ (requeue_all ids s).jobs)) (requeued-jobs (get id m) id m r))

expired-Above :
    (now : ℤ) (k n : ℕ) (m : OrderedMap Record)
    → k < n
    → Ascending n m
    → Above k (expired now (project_jobs m))
unfolding expired project_jobs
expired-Above now k n [] b h = tt
expired-Above now k n ((j, r) ∷ m) b h =
    let rest = expired-Above now k (suc j) m (omega arith) h.1 in
    elim (Bool-cases (lapsed now r.status)) [ inl e ↦ rw e (omega arith, rest) | inr e ↦ rw e rest ]

lapsed-same : (now : ℤ) (x : JobStatus) → lapsed now x ≡ Memory.lapsed now x
unfolding lapsed Memory.lapsed
lapsed-same now queued = refl
lapsed-same now (leased w e) = refl
lapsed-same now (succeeded x f) = refl
lapsed-same now (failed x f) = refl
lapsed-same now (dead x f) = refl

lapsed-is_leased : (now : ℤ) (x : JobStatus) → lapsed now x ≡ true → is_leased x ≡ true
unfolding lapsed is_leased
lapsed-is_leased now queued h = absurd (cc)
lapsed-is_leased now (leased w e) h = refl
lapsed-is_leased now (succeeded x f) h = absurd (cc)
lapsed-is_leased now (failed x f) h = absurd (cc)
lapsed-is_leased now (dead x f) h = absurd (cc)

-- What the sweep leaves of a record.
abbrev freed : StoredJob → StoredJob
freed sj = record sj { status = queued }

stored-swept :
    (now : ℤ) (x : Record)
    → stored (sweep_record now x) ≡ (if lapsed now x.status then freed (stored x) else stored x)
unfolding sweep_record Memory.requeue
stored-swept now x =
    rw (lapsed-same now x.status)
      (elim (Bool-cases (Memory.lapsed now x.status)) [ inl e ↦ rw e refl | inr e ↦ rw e refl ])

requeue-head :
    (k : ℕ) (sj : StoredJob) (m : OrderedMap StoredJob) (r : Rows)
    → is_leased sj.status ≡ true
    → requeue k (with_jobs r ((k, sj) ∷ m)) ≡ with_jobs r ((k, freed sj) ∷ m)
unfolding requeue requeued set_job get insert
requeue-head k sj m r e =
    let same : (k == k) ≡ true = ground arith in
    let over : insert k (freed sj) ((k, sj) ∷ m) ≡ (k, freed sj) ∷ m = ground arith in
    rw (same, e, over) refl

-- The loop of the sweep does to the rows what the sweep in memory does.
requeue_all-swept :
    (now : ℤ) (n : ℕ) (m : OrderedMap Record) (r : Rows)
    → Ascending n m
    → requeue_all (expired now (project_jobs m)) (with_jobs r (project_jobs m))
      ≡ with_jobs r (project_jobs (map_values (sweep_record now) m))
unfolding expired project_jobs map_values requeue_all
requeue_all-swept now n [] r h = refl
requeue_all-swept now n ((k, x) ∷ m) r h =
    let ids = expired now (project_jobs m) in
    let up = expired-Above now k (suc k) m (omega arith) h.1 in
    let rest = requeue_all-swept now (suc k) m r h.1 in
    let tail = λ (sj : StoredJob).
      requeue_all-below ids k sj (project_jobs m) r up
      ∙ ap (λ s. with_jobs r ((k, sj) ∷ s.jobs)) rest in
    rw (stored-swept now x) (elim (Bool-cases (lapsed now x.status)) [
      | inl e ↦ rw e (
          ap (requeue_all ids)
            (requeue-head k (stored x) (project_jobs m) r (lapsed-is_leased now x.status e))
          ∙ tail (freed (stored x)))
      | inr e ↦ rw e (tail (stored x))
    ])

pub sweep_expired-calm :
    (now : ℤ) (s : State)
    → Ascending 0 s.records
    → sweep_expired now (calm (project s)) ≡ (ok tt, calm (project (Memory.sweep_expired now s)))
unfolding sweep_expired scan access access_with Memory.sweep_expired
sweep_expired-calm now s h =
    sweep_ids-calm (expired now (project_jobs s.records)) (project s)
    ∙ ap (λ r. (ok tt, calm r)) (requeue_all-swept now 0 s.records (project s) h)
