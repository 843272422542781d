-- ===== src/Lease/Acquire/Outcome.antt =====
-- lease.rs: `acquire` always comes to an answer, and leaves a live lease alone.
use rust_api.Lease.Acquire.Facts.{fetch_standing, write_forbidden}
use rust_api.Lease.{held, LeaseError, is_live_at, LeaseRecord}
use rust_api.Lease.Acquire.{
  Fetched, absent, fetch, fetched, fetch_error, confirming, acquired, FetchResult, reading,
  write_record, claiming, refused, taking_over, Claim, IsDone, after_confirm, after_take_over,
  Phase, step, acquire, after_read, after_claim,
}
use rust_api.Lease.Store.{
  already_exists, matching, precondition, create, put_failed, PutError, StoreLaws, ObjectStore,
}
use rust_api.Prelude.{
  sub_i64, ℕ, ◌-◌, ◌≤◌, String, ◌≡◌, refl, ◌∙◌, ◌≢◌, ◌⊎◌, inl, inr, true, Option, none, some, arith,
  Bool-cases, ℤ,
}

module _ (o : ObjectStore) (path prefix : String) where
  open o use {State}

  -- How many store calls are left at most.
  abbrev calls_left : Phase o → ℕ
  calls_left claiming = 4
  calls_left reading = 3
  calls_left (taking_over f) = 2
  calls_left confirming = 1
  calls_left acquired = 0
  calls_left (refused e) = 0

  calls_left-after_read :
      (c : Claim) (r : FetchResult o) → calls_left (after_read o path prefix c r) ≤ 2
  unfolding after_read
  calls_left-after_read c absent = omega arith
  calls_left-after_read c (fetch_error e) = omega arith
  calls_left-after_read c (fetched f) = elim (Bool-cases (is_live_at f.lease c.now)) [
    | inl e ↦ rw (e, after_read) (omega arith)
    | inr e ↦ rw (e, after_read) (omega arith)
  ]

  calls_left-after_claim : (e : Option PutError) → calls_left (after_claim o path prefix e) ≤ 3
  unfolding after_claim
  calls_left-after_claim none = omega arith
  calls_left-after_claim (some e) = omega arith

  calls_left-after_take_over :
      (c : Claim) (e : Option PutError) → calls_left (after_take_over o path prefix c e) ≤ 1
  unfolding after_take_over
  calls_left-after_take_over c none = omega arith
  calls_left-after_take_over c (some precondition) = omega arith
  calls_left-after_take_over c (some already_exists) = omega arith
  calls_left-after_take_over c (some (put_failed e)) = omega arith

  calls_left-after_confirm :
      (c : Claim) (r : FetchResult o) → calls_left (after_confirm o path prefix c r) ≤ 0
  unfolding after_confirm
  calls_left-after_confirm c absent = omega arith
  calls_left-after_confirm c (fetch_error e) = omega arith
  calls_left-after_confirm c (fetched f) = omega arith

  calls_left-step :
      (c : Claim) (p : Phase o) (s : State)
      → calls_left (step o path prefix c p s).0 ≤ calls_left p - 1
  unfolding step
  calls_left-step c claiming s = calls_left-after_claim (write_record o path c.mine create s).0
  calls_left-step c reading s = calls_left-after_read c (fetch o path prefix s).0
  calls_left-step c (taking_over f) s =
      calls_left-after_take_over c (write_record o path c.mine (matching f.version) s).0
  calls_left-step c confirming s = calls_left-after_confirm c (fetch o path prefix s).0
  calls_left-step c acquired s = omega arith
  calls_left-step c (refused e) s = omega arith

  IsDone-of_none_left : (p : Phase o) → calls_left p ≤ 0 → IsDone o path prefix p
  IsDone-of_none_left acquired h = tt
  IsDone-of_none_left (refused e) h = tt
  IsDone-of_none_left claiming h = absurd (omega arith)
  IsDone-of_none_left reading h = absurd (omega arith)
  IsDone-of_none_left (taking_over f) h = absurd (omega arith)
  IsDone-of_none_left confirming h = absurd (omega arith)

  -- Four store calls always bring `acquire` to an answer, whatever the store does.
  pub acquire-IsDone : (c : Claim) (s : State) → IsDone o path prefix (acquire o path prefix c s).0
  unfolding acquire
  acquire-IsDone c s =
      let (p1, s1) = step o path prefix c claiming s in
      let (p2, s2) = step o path prefix c p1 s1 in
      let (p3, s3) = step o path prefix c p2 s2 in
      IsDone-of_none_left (step o path prefix c p3 s3).0 (
        omega (
          arith,
          calls_left-step c claiming s,
          calls_left-step c p1 s1,
          calls_left-step c p2 s2,
          calls_left-step c p3 s3,
        ))

module _ (o : ObjectStore) (laws : StoreLaws o) (path prefix : String) where
  open o use {Bytes, Version, State, from_slice, get_opts, object}

  -- Under `path` stands a record that is live at `now`.
  abbrev pub StandsLive : ℤ → State → Type 0
  StandsLive now s =
      (b : Bytes) × (v : Version) × (r : LeaseRecord) × (object path s ≡ some (b, v))
      × (from_slice b ≡ some r)
      × (is_live_at r now ≡ true)

  claimed_reading : (e : Option PutError) → e ≢ none → after_claim o path prefix e ≡ reading
  unfolding after_claim
  claimed_reading none n = absurd (n refl)
  claimed_reading (some x) n = refl

  step_claiming :
      (c : Claim) (s : State)
      → object path s ≢ none
      → ((step o path prefix c claiming s).0 ≡ reading)
        × (object path (step o path prefix c claiming s).1 ≡ object path s)
  unfolding step
  step_claiming c s there =
      let (failed, same) = write_forbidden o laws path prefix path c.mine create s there in
      (claimed_reading (write_record o path c.mine create s).0 failed, same)

  read_refuses :
      (c : Claim) (r : FetchResult o)
      → ((f : Fetched o) × (r ≡ fetched f) × (is_live_at f.lease c.now ≡ true))
        ⊎ ((e : LeaseError) × (r ≡ fetch_error e))
      → (e : LeaseError) × (after_read o path prefix c r ≡ refused e)
  unfolding after_read
  read_refuses c r (inl (f, e, l)) =
      (held prefix f.lease (sub_i64 c.now f.lease.renewed_at), rw (e, after_read) (rw l))
  read_refuses c r (inr (x, e)) = (x, rw (e, after_read))

  step_reading :
      (c : Claim) (s : State)
      → StandsLive c.now s
      → ((e : LeaseError) × ((step o path prefix c reading s).0 ≡ refused e))
        × (object path (step o path prefix c reading s).1 ≡ object path s)
  unfolding step fetch
  step_reading c s (b, v, r, stored, decoded, live) =
      let answer = fetch_standing o laws path prefix path s b v r stored decoded in
      (
        read_refuses c (fetch o path prefix s).0 (elim answer [
          | inl e ↦ inl (record { lease = r; version = v }, e, live)
          | inr x ↦ inr x
        ]),
        laws.get_keeps path s,
      )

  -- A live record is left alone: `acquire` is refused, and the object is as it was.
  pub acquire_live :
      (c : Claim) (s : State)
      → StandsLive c.now s
      → ((e : LeaseError) × ((acquire o path prefix c s).0 ≡ refused e))
        × (object path (acquire o path prefix c s).1 ≡ object path s)
  unfolding acquire
  acquire_live c s (b, v, r, stored, decoded, live) =
      let s1 = (step o path prefix c claiming s).1 in
      let (e1, same1) = step_claiming c s (λ n. cc) in
      let ((e, e2), same2) = step_reading c s1 (b, v, r, same1 ∙ stored, decoded, live) in
      rw (e1, e2) ((e, refl), same2 ∙ same1)
