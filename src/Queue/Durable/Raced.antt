-- ===== src/Queue/Durable/Raced.antt =====
-- queue/durable.rs, reserve: two workers at once. What a worker picks is read in one access and leased
-- in others, so that another worker's accesses may come between.
use rust_api.Prelude.{ℕ, suc, String, ◌≡◌, refl, ap, List, [], ◌∷◌, arith, length, take, ℤ}
use rust_api.Prelude.{length-take}
use rust_api.Queue.{leased, LeasedJob, ok}
use rust_api.Queue.Durable.{
  sort_insert, StoredJob, Rows, D, ◌>>=◌, pure, access, access_with, write, set_job, put_job, scan,
  candidates, sort_jobs, pick, lease_jobs,
}
use rust_api.Queue.Durable.Projected.{calm}

-- Both workers pick, and then each one leases what it picked. An error ends the race.
unfoldable pub race : ℤ → ℕ → String → String → ℤ → D (List LeasedJob × List LeasedJob)
race now limit one other expiry = do
  mine ← pick now limit
  yours ← pick now limit
  xs ← lease_jobs one expiry mine
  ys ← lease_jobs other expiry yours
  pure (xs, ys)

handed_out : ℤ → List StoredJob → List LeasedJob
handed_out expiry [] = []
handed_out expiry (sj ∷ sjs) =
    record { job = sj.job; lease_expires_at = expiry } ∷ handed_out expiry sjs

-- What was picked is handed out, whatever the rows say by now.
lease_jobs-blind :
    (worker : String) (expiry : ℤ) (sjs : List StoredJob) (r : Rows)
    → (q : Rows) × (lease_jobs worker expiry sjs (calm r) ≡ (ok (handed_out expiry sjs), calm q))
unfolding lease_jobs put_job write access access_with handed_out
lease_jobs-blind worker expiry [] r = (r, refl)
lease_jobs-blind worker expiry (sj ∷ sjs) r =
    let (q, e) =
      lease_jobs-blind worker expiry sjs
        (set_job sj.job.id (record sj { status = leased worker expiry }) r) in
    (q, rw e refl)

handed_out-length :
    (expiry : ℤ) (sjs : List StoredJob) → length (handed_out expiry sjs) ≡ length sjs
unfolding handed_out
handed_out-length expiry [] = refl
handed_out-length expiry (sj ∷ sjs) = ap suc (handed_out-length expiry sjs)

sort_insert-length :
    (a : StoredJob) (bs : List StoredJob) → length (sort_insert a bs) ≡ suc (length bs)
unfolding sort_insert
sort_insert-length a [] = refl
sort_insert-length a (b ∷ bs) = ground (arith, sort_insert-length a bs)

sort_jobs-length : (sjs : List StoredJob) → length (sort_jobs sjs) ≡ length sjs
unfolding sort_jobs
sort_jobs-length [] = refl
sort_jobs-length (a ∷ as') =
    omega (arith, sort_insert-length a (sort_jobs as'), sort_jobs-length as')

-- When no access fails and two workers both read the queue before either writes a lease, both are
-- handed out the same jobs, as many as are due up to the limit.
pub race-same :
    (now : ℤ) (limit : ℕ) (one other : String) (expiry : ℤ) (r : Rows)
    → (xs : List LeasedJob) × ((race now limit one other expiry (calm r)).0 ≡ ok (xs, xs))
      × (length xs ≡ length (take limit (candidates now r.jobs)))
unfolding race pick scan access access_with
race-same now limit one other expiry r =
    let sjs = take limit (sort_jobs (candidates now r.jobs)) in
    let (q, e) = lease_jobs-blind one expiry sjs r in
    let (q', f) = lease_jobs-blind other expiry sjs q in
    (
      handed_out expiry sjs,
      rw (e, f) refl,
      omega (
        arith,
        handed_out-length expiry sjs,
        length-take limit (sort_jobs (candidates now r.jobs)),
        length-take limit (candidates now r.jobs),
        sort_jobs-length (candidates now r.jobs),
      ),
    )
