-- ===== src/Queue/Durable/Reserved.antt =====
-- queue/durable.rs, reserve: while no access fails, it hands out what the queue in memory does.
use rust_api.Prelude.{
  ℕ, zero, suc, String, ◌≡◌, refl, inl, inr, ◌&&◌, none, some, List, [], ◌∷◌, arith, ◌==◌,
  Bool-cases, take, ℤ, leb_ℤ,
}
use rust_api.Prelude.{add_i64, as_i64}
use rust_api.Prelude.Maps.{
  OrderedMap, get, update, Ascending, get_below, update-Ascending, get-update, Entries,
}
use rust_api.Queue.{JobId, Duration, as_secs, leased, ok, is_queued}
use rust_api.Queue.Memory.{Record, State, lease_record}
use rust_api.Queue.Memory.Consistent.{IsConsistent, IsRecord, sweep_expired-IsConsistent}
use rust_api.Queue.Memory.Ordered.{IsOrdered, sweep_expired-IsOrdered}
use rust_api.Queue.Memory as Memory
use rust_api.Queue.Durable.{
  StoredJob, access, access_with, put_job, scan, candidates, after, sort_insert, sort_jobs, pick,
  lease_jobs, reserve,
}
use rust_api.Queue.Durable.Projected.{stored, project_jobs, project, calm, sweep_expired-calm}
use rust_api.Queue.Durable.Refines.{put_job-calm}

-- The id's record has the row's job, under the job's id.
abbrev Stand : OrderedMap Record → JobId → StoredJob → Type 0
Stand m id sj = (r : Record) × (get id m ≡ some r) × (sj.job ≡ r.job) × (sj.job.id ≡ id)

abbrev Stands : OrderedMap Record → List JobId → List StoredJob → Type 0
Stands m [] [] = Unit {0}
Stands m [] (sj ∷ sjs) = ⊥
Stands m (id ∷ ids) [] = ⊥
Stands m (id ∷ ids) (sj ∷ sjs) = Stand m id sj × Stands m ids sjs

-- From one map to another.
Stands-map :
    (m l : OrderedMap Record)
    → ((id : JobId) (sj : StoredJob) → Stand m id sj → Stand l id sj)
    → (ids : List JobId) (sjs : List StoredJob) → Stands m ids sjs
    → Stands l ids sjs
Stands-map m l k [] [] h = tt
Stands-map m l k [] (sj ∷ sjs) h = absurd h
Stands-map m l k (id ∷ ids) [] h = absurd h
Stands-map m l k (id ∷ ids) (sj ∷ sjs) h = (k id sj h.0, Stands-map m l k ids sjs h.1)

Stand-cons :
    (j : ℕ) (x : Record) (m : OrderedMap Record)
    → get j m ≡ none
    → (id : JobId) (sj : StoredJob) → Stand m id sj
    → Stand ((j, x) ∷ m) id sj
unfolding get
Stand-cons j x m n id sj (r, e, q, i) = (r, ground (arith), q, i)

get-here : (k : ℕ) (r : Record) (m : OrderedMap Record) → get k ((k, r) ∷ m) ≡ some r
unfolding get
get-here k r m = ground arith

Stands-candidates :
    (now : ℤ) (n : ℕ) (m : OrderedMap Record)
    → Ascending n m
    → Entries IsRecord m
    → Stands m (Memory.available_ids now m) (candidates now (project_jobs m))
unfolding candidates project_jobs Memory.available_ids Memory.available
Stands-candidates now n [] h c = tt
Stands-candidates now n ((k, r) ∷ m) h c =
    let rest =
      Stands-map m ((k, r) ∷ m) (Stand-cons k r m (get_below (suc k) k m h.1 (omega arith)))
        (Memory.available_ids now m) (candidates now (project_jobs m))
        (Stands-candidates now (suc k) m h.1 c.1) in
    elim (Bool-cases (is_queued r.status && leb_ℤ r.job.scheduled_at now)) [
      | inl e ↦ rw e ((r, get-here k r m, refl, c.0.0), rest)
      | inr e ↦ rw e rest
    ]

id_after-same :
    (m : OrderedMap Record) (a b : JobId) (sa sb : StoredJob)
    → Stand m a sa
    → Stand m b sb
    → Memory.id_after m a b ≡ after sa.job sb.job
unfolding Memory.id_after Memory.after after
id_after-same m a b sa sb (r, e, q, i) (x, f, p, j) = rw (e, f, q, p, Memory.id_after) refl

Stands-sort_insert :
    (m : OrderedMap Record) (a : JobId) (sa : StoredJob) (bs : List JobId) (sbs : List StoredJob)
    → Stand m a sa
    → Stands m bs sbs
    → Stands m (Memory.sort_insert m a bs) (sort_insert sa sbs)
unfolding sort_insert Memory.sort_insert
Stands-sort_insert m a sa [] [] s h = (s, tt)
Stands-sort_insert m a sa [] (sb ∷ sbs) s h = absurd h
Stands-sort_insert m a sa (b ∷ bs) [] s h = absurd h
Stands-sort_insert m a sa (b ∷ bs) (sb ∷ sbs) s (t, h) =
    let rest = Stands-sort_insert m a sa bs sbs s h in
    rw (id_after-same m a b sa sb s t) (elim (Bool-cases (after sa.job sb.job)) [
      | inl e ↦ rw e (t, rest)
      | inr e ↦ rw e (s, (t, h))
    ])

Stands-sort :
    (m : OrderedMap Record) (ids : List JobId) (sjs : List StoredJob)
    → Stands m ids sjs
    → Stands m (Memory.sort_ids m ids) (sort_jobs sjs)
unfolding sort_jobs Memory.sort_ids
Stands-sort m [] [] h = tt
Stands-sort m [] (sj ∷ sjs) h = absurd h
Stands-sort m (id ∷ ids) [] h = absurd h
Stands-sort m (id ∷ ids) (sj ∷ sjs) h =
    Stands-sort_insert m id sj (Memory.sort_ids m ids) (sort_jobs sjs) h.0
      (Stands-sort m ids sjs h.1)

Stands-take :
    (n : ℕ) (m : OrderedMap Record) (ids : List JobId) (sjs : List StoredJob)
    → Stands m ids sjs
    → Stands m (take n ids) (take n sjs)
Stands-take zero m ids sjs h = tt
Stands-take (suc n) m [] [] h = tt
Stands-take (suc n) m [] (sj ∷ sjs) h = absurd h
Stands-take (suc n) m (id ∷ ids) [] h = absurd h
Stands-take (suc n) m (id ∷ ids) (sj ∷ sjs) h = (h.0, Stands-take n m ids sjs h.1)

-- A lease changes no job.
Stand-leased :
    (worker : String) (expiry : ℤ) (k : JobId) (m : OrderedMap Record) (id : JobId) (sj : StoredJob)
    → Stand m id sj
    → Stand (update k (lease_record worker expiry) m) id sj
unfolding lease_record
Stand-leased worker expiry k m id sj (r, e, q, i) = elim (Bool-cases (k == id)) [
  | inl b ↦ (
    lease_record worker expiry r,
    rw (get-update k id (lease_record worker expiry) m, b, e) refl,
    q,
    i,
  )
  | inr b ↦ (r, rw (get-update k id (lease_record worker expiry) m, b) e, q, i)
]

lease_all-found :
    (worker : String) (expiry : ℤ) (id : JobId) (ids : List JobId) (r : Record)
    (m : OrderedMap Record)
    → get id m ≡ some r
    → let rest = Memory.lease_all worker expiry ids (update id (lease_record worker expiry) m) in
      Memory.lease_all worker expiry (id ∷ ids) m
      ≡ (record { job = r.job; lease_expires_at = expiry } ∷ rest.0, rest.1)
unfolding Memory.lease_all
lease_all-found worker expiry id ids r m e = rw (e, Memory.lease_all) refl

lease_all-none :
    (worker : String) (expiry : ℤ) (m : OrderedMap Record)
    → Memory.lease_all worker expiry [] m ≡ ([], m)
unfolding Memory.lease_all
lease_all-none worker expiry m = refl

leased-row :
    (worker : String) (expiry : ℤ) (id : JobId) (sj : StoredJob) (r : Record) (s : State)
    → IsOrdered s
    → get id s.records ≡ some r
    → sj.job ≡ r.job
    → sj.job.id ≡ id
    → put_job sj.job.id (record sj { status = leased worker expiry }) (calm (project s)) ≡ (
      ok tt,
      calm (project (record s { records = update id (lease_record worker expiry) s.records })),
    )
unfolding lease_record
leased-row worker expiry id sj r s h e q i =
    let row : record { job = sj.job; status = leased worker expiry }
        ≡ stored (lease_record worker expiry r) =
      rw q refl in
    rw (row, i) (put_job-calm id (lease_record worker expiry) r s h e)

-- The rows are leased as the records are.
lease_jobs-calm :
    (worker : String) (expiry : ℤ) (ids : List JobId) (sjs : List StoredJob) (s : State)
    → IsOrdered s
    → Stands s.records ids sjs
    → let l = Memory.lease_all worker expiry ids s.records in
      lease_jobs worker expiry sjs (calm (project s))
      ≡ (ok l.0, calm (project (record s { records = l.1 })))
unfolding lease_jobs
lease_jobs-calm worker expiry [] [] s h k = rw (lease_all-none worker expiry s.records) refl
lease_jobs-calm worker expiry [] (sj ∷ sjs) s h k = absurd k
lease_jobs-calm worker expiry (id ∷ ids) [] s h k = absurd k
lease_jobs-calm worker expiry (id ∷ ids) (sj ∷ sjs) s h ((r, e, q, i), k) =
    let s' : State = record s { records = update id (lease_record worker expiry) s.records } in
    let rest =
      lease_jobs-calm worker expiry ids sjs s'
        (update-Ascending 0 id (lease_record worker expiry) s.records h)
        (Stands-map s.records s'.records (Stand-leased worker expiry id s.records) ids sjs k) in
    rw
      (
        leased-row worker expiry id sj r s h e q i,
        lease_all-found worker expiry id ids r s.records e,
        rest,
        q,
      )
      refl

pub reserve-refines :
    (t now : ℤ) (worker : String) (limit : ℕ) (lease : Duration) (s : State)
    → IsOrdered s
    → IsConsistent s
    → let x = Memory.reserve t now worker limit lease s in
      reserve t now worker limit lease (calm (project s)) ≡ (ok x.0, calm (project x.1))
unfolding reserve pick scan access access_with Memory.reserve
reserve-refines t now worker limit lease s h c =
    let s' = Memory.sweep_expired t s in
    let h' = sweep_expired-IsOrdered t s h in
    let c' = sweep_expired-IsConsistent t s c in
    rw (sweep_expired-calm t s h) (
      lease_jobs-calm worker (add_i64 now (as_i64 (as_secs lease)))
        (take limit (Memory.sort_ids s'.records (Memory.available_ids now s'.records)))
        (take limit (sort_jobs (candidates now (project_jobs s'.records)))) s' h'
        (Stands-take limit s'.records _ _
          (Stands-sort s'.records _ _ (Stands-candidates now 0 s'.records h' c'))))
