-- ===== src/Queue/Memory/Reserve.antt =====
-- queue/memory.rs: what `reserve` leases, and to whom.
use mathlib.Core.Option
use rust_api.Prelude.{
  sym, ◌⊎◌, ◌∙◌, ℕ, suc, ◌≤◌, ◌<◌, ℤ, ◌≡◌, refl, inl, inr, String, Option, none, some, List, [],
  ◌∷◌, map, take, count, count-take-le, length, length-take, arith, add_i64, as_i64, ◌==◌,
  if◌then◌else◌, true, Option-cases,
}
use rust_api.Prelude.Maps.{
  Entries-update, OrderedMap, get, update, get-update, Entries, Entries-get, Ascending,
}
use rust_api.Queue.{JobId, Duration, as_secs, LeasedJob}
use rust_api.Queue.Memory.{
  Record, State, sweep_expired, available, available_ids, sort_insert, sort_ids, lease_record,
  lease_all, reserve,
}
use rust_api.Queue.Memory.Consistent.{sweep_expired-IsConsistent, IsRecord, IsConsistent}
use rust_api.Queue.Memory.Ordered.{IsOrdered, sweep_expired-IsOrdered}

zero_or_one : (n : ℕ) → n ≤ 1 → (n ≡ 0) ⊎ (n ≡ 1)
zero_or_one n h = omega arith

-- An id is listed once if its record is available, and not otherwise.
abbrev tally : Option Record → ℤ → ℕ
tally none now = 0
tally (some r) now = if available now r then 1 else 0

count-available_ids_below :
    (j n : ℕ) (now : ℤ) (m : OrderedMap Record)
    → Ascending n m
    → j < n
    → count j (available_ids now m) ≡ 0
unfolding available_ids
count-available_ids_below j n now [] h b = refl
count-available_ids_below j n now ((k, r) ∷ m) h b =
    ground (arith, count-available_ids_below j (suc k) now m h.1)

count-available_ids :
    (j n : ℕ) (now : ℤ) (m : OrderedMap Record)
    → Ascending n m
    → count j (available_ids now m) ≡ tally (get j m) now
unfolding available_ids get
count-available_ids j n now [] h = refl
count-available_ids j n now ((k, r) ∷ m) h =
    ground (
      arith,
      count-available_ids j (suc k) now m h.1,
      count-available_ids_below j (suc k) now m h.1,
    )

count-sort_insert :
    (j : ℕ) (m : OrderedMap Record) (a : JobId) (bs : List JobId)
    → count j (sort_insert m a bs) ≡ count j (a ∷ bs)
unfolding sort_insert
count-sort_insert j m a [] = refl
count-sort_insert j m a (b ∷ bs) = ground (arith, count-sort_insert j m a bs)

-- Sorting neither drops an id nor repeats one.
count-sort_ids :
    (j : ℕ) (m : OrderedMap Record) (ids : List JobId) → count j (sort_ids m ids) ≡ count j ids
unfolding sort_ids
count-sort_ids j m [] = refl
count-sort_ids j m (a ∷ as') =
    ground (arith, count-sort_insert j m a (sort_ids m as'), count-sort_ids j m as')

abbrev pub ids_of : List LeasedJob → List JobId
ids_of = map λ l. l.job.id

abbrev present : Option Record → ℕ → ℕ
present none n = 0
present (some r) n = n

module _ (worker : String) (expiry : ℤ) where
  get-lease_all :
      (j : ℕ) (ids : List JobId) (m : OrderedMap Record)
      → get j (lease_all worker expiry ids m).1
        ≡ (if count j ids == 0 then get j m else Option.map (lease_record worker expiry) (get j m))
  unfolding lease_all lease_record
  get-lease_all j [] m = refl
  get-lease_all j (id ∷ ids) m = ground (
    arith,
    get-lease_all j ids m,
    get-lease_all j ids (update id (lease_record worker expiry) m),
    get-update id j (lease_record worker expiry) m,
  )

  count-lease_all :
      (j : ℕ) (ids : List JobId) (m : OrderedMap Record)
      → Entries IsRecord m
      → count j (ids_of (lease_all worker expiry ids m).0) ≡ present (get j m) (count j ids)
  unfolding lease_all lease_record
  count-lease_all j [] m h = ground arith
  count-lease_all j (id ∷ ids) m h =
      let f : Record → Record = lease_record worker expiry in
      elim (Option-cases (get id m)) [
        | inl e ↦ ground (arith, e, count-lease_all j ids m h)
        | inr (r, e) ↦ ground (
          arith,
          e,
          (Entries-get IsRecord id m r h e).0,
          count-lease_all j ids (update id f m)
              (Entries-update IsRecord id f m (λ r g. (g.0, (refl, refl))) h),
          get-update id j f m,
        )
      ]

  length-lease_all :
      (ids : List JobId) (m : OrderedMap Record)
      → length (lease_all worker expiry ids m).0 ≤ length ids
  unfolding lease_all
  length-lease_all [] m = omega arith
  length-lease_all (id ∷ ids) m = ground (
    arith,
    length-lease_all ids m,
    length-lease_all ids (update id (lease_record worker expiry) m),
  )

-- What `reserve` hands out from the swept records `swept`, at most `limit` jobs. Each id is handed
-- out at most once. An id that is handed out had a queued and due record there, and the record is
-- now leased to the worker; every other record is as it was there.
pub record Leases (limit : ℕ) (now : ℤ) (worker : String) (expiry : ℤ) (swept : OrderedMap Record)
    (jobs : List LeasedJob) (m : OrderedMap Record) : Type 0 where
  pub within : length jobs ≤ limit
  -- Every job is either passed over, and its record unchanged, or handed out once.
  pub each :
      (j : JobId)
      → ((count j (ids_of jobs) ≡ 0) × (get j m ≡ get j swept))
        ⊎ ((count j (ids_of jobs) ≡ 1)
            × ((r : Record) × (get j swept ≡ some r)
                × (available now r ≡ true)
                × (get j m ≡ some (lease_record worker expiry r))))

module _ (limit : ℕ) (now : ℤ) (worker : String) (expiry : ℤ) (m : OrderedMap Record)
    (c : Entries IsRecord m) (o : Ascending 0 m) where
  chosen : List JobId
  chosen = take limit (sort_ids m (available_ids now m))

  count-chosen-le : (j : JobId) → count j chosen ≤ tally (get j m) now
  unfolding chosen
  count-chosen-le j = omega (
    arith,
    count-take-le j limit (sort_ids m (available_ids now m)),
    count-sort_ids j m (available_ids now m),
    count-available_ids j 0 now m o,
  )

  chosen-handed :
      (j : JobId) (x : Option Record)
      → get j m ≡ x
      → present x (count j chosen) ≡ 1
      → (r : Record) × (get j m ≡ some r)
        × (available now r ≡ true)
        × (get j (lease_all worker expiry chosen m).1 ≡ some (lease_record worker expiry r))
  chosen-handed j none e h = absurd (omega arith)
  chosen-handed j (some r) e h = (
    r,
    e,
    ground (arith, count-chosen-le j),
    ground (arith, get-lease_all worker expiry j chosen m),
  )

  handed_once : (j : JobId) → count j (ids_of (lease_all worker expiry chosen m).0) ≤ 1
  handed_once j = ground (arith, count-chosen-le j, count-lease_all worker expiry j chosen m c)

  passed_over :
      (j : JobId)
      → count j (ids_of (lease_all worker expiry chosen m).0) ≡ 0
      → get j (lease_all worker expiry chosen m).1 ≡ get j m
  passed_over j z =
      ground (
        arith,
        z,
        count-lease_all worker expiry j chosen m c,
        get-lease_all worker expiry j chosen m,
      )

  lease_all-Leases :
      Leases limit now worker expiry m
        (lease_all worker expiry chosen m).0
        (lease_all worker expiry chosen m).1
  unfolding chosen
  lease_all-Leases = record {
    within = omega (
      arith,
      length-lease_all worker expiry chosen m,
      length-take limit (sort_ids m (available_ids now m)),
    );
    each = λ j.
        elim (zero_or_one (count j (ids_of (lease_all worker expiry chosen m).0)) (handed_once j)) [
          | inl z ↦ inl (z, passed_over j z)
          | inr u ↦ inr (
            u,
            chosen-handed j (get j m) refl (sym (count-lease_all worker expiry j chosen m c) ∙ u),
          )
        ];
  }

-- On a consistent queue, `reserve` sweeps the lapsed leases and hands out as `Leases` says.
pub reserve-Leases :
    (t now : ℤ) (worker : String) (limit : ℕ) (lease : Duration) (s : State)
    → IsConsistent s
    → IsOrdered s
    → Leases limit now worker
        (add_i64 now (as_i64 (as_secs lease)))
        (sweep_expired t s).records
        (reserve t now worker limit lease s).0
        (reserve t now worker limit lease s).1.records
unfolding reserve chosen
reserve-Leases t now worker limit lease s c o =
    lease_all-Leases limit now worker (add_i64 now (as_i64 (as_secs lease)))
      (sweep_expired t s).records (sweep_expired-IsConsistent t s c) (sweep_expired-IsOrdered t s o)
