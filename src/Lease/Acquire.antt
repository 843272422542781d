-- ===== src/Lease/Acquire.antt =====
-- lease.rs: `WriterLease::acquire`, one store call to a step, so that several processes can take
-- their steps in any order.
pub mod Facts
pub mod Exclusive
pub mod Outcome
use rust_api.Lease.{corrupt, is_live_at, held, io, LeaseError, LeaseRecord}
use rust_api.Lease.Store.{
  already_exists, missing, precondition, found, matching, get_failed, put_failed, PutMode, Got,
  PutError, create, ObjectStore,
}
use rust_api.Prelude.{
  sub_i64, ℕ, zero, suc, ◌+◌, ◌-◌, ◌*◌, ◌/◌, ◌%◌, ◌^◌, ◌≤◌, ◌<◌, String, ◌≡◌, refl, sym, ap, ◌∙◌,
  subst, ◌≢◌, ◌↔◌, ◌⊎◌, inl, inr, Bool, true, false, not, ◌&&◌, ◌||◌, Option, none, some, List, [],
  ◌∷◌, ◌++◌, map, arith, str_eq, eq_iff, ltb, leb, ◌==◌, if◌then◌else◌, Bool-cases, Option-cases,
  length, take, All, count, ℤ, pos, negsuc, ltb_ℤ, leb_ℤ, ◌≤ℤ◌, ◌<ℤ◌, ◌-ℤ◌,
}

module _ (o : ObjectStore) where
  open o use {Bytes, Version, State, to_vec, from_slice, get_opts, put_opts}

  pub record Fetched : Type 0 where
    pub lease : LeaseRecord
    pub version : Version

  pub data FetchResult : Type 0 where
    absent : FetchResult
    fetched : Fetched → FetchResult
    fetch_error : LeaseError → FetchResult

  read_got : String → Got Bytes Version → FetchResult
  read_got prefix missing = absent
  read_got prefix (get_failed e) = fetch_error (io prefix)
  read_got prefix (found b v) = elim (from_slice b) [
    | none ↦ fetch_error (corrupt prefix)
    | some r ↦ fetched (record { lease = r; version = v })
  ]

  -- `fetch`
  unfoldable pub fetch : String → String → State → FetchResult × State
  unfolding read_got
  fetch path prefix s = let (got, s') = get_opts path s in (read_got prefix got, s')

  -- `write_record`: `none` if it succeeds.
  unfoldable pub write_record :
      String → LeaseRecord → PutMode Version → State → Option PutError × State
  write_record path r mode s = elim (to_vec r) [
    | none ↦ (some (put_failed "writer-lease"), s)
    | some b ↦ put_opts path b mode s
  ]

  -- Where a process stands in `acquire`, between two store calls.
  pub data Phase : Type 0 where
    claiming reading : Phase
    taking_over : Fetched → Phase
    confirming : Phase
    acquired : Phase
    refused : LeaseError → Phase

-- A process that acquires: the record it would write, and its clock when it began.
pub record Claim : Type 0 where
  pub mine : LeaseRecord
  pub now : ℤ

-- `path` is where the lease of the database prefix `prefix` stands.
module _ (o : ObjectStore) (path prefix : String) where
  open o use {State}

  after_claim : Option PutError → Phase o
  after_claim none = acquired
  after_claim (some e) = reading

  pub after_read : Claim → FetchResult o → Phase o
  after_read c absent = refused (io prefix)
  after_read c (fetch_error e) = refused e
  after_read c (fetched f) =
      if is_live_at f.lease c.now
      then refused (held prefix f.lease (sub_i64 c.now f.lease.renewed_at))
      else taking_over f

  after_take_over : Claim → Option PutError → Phase o
  after_take_over c none = acquired
  after_take_over c (some precondition) = confirming
  after_take_over c (some already_exists) = refused (io prefix)
  after_take_over c (some (put_failed e)) = refused (io prefix)

  after_confirm : Claim → FetchResult o → Phase o
  after_confirm c absent = refused (io prefix)
  after_confirm c (fetch_error e) = refused e
  after_confirm c (fetched f) = refused (held prefix f.lease (pos 0))

  -- The next store call, and what the process makes of its answer.
  unfoldable pub step : Claim → Phase o → State → Phase o × State
  unfolding after_claim after_read after_take_over after_confirm fetch write_record
  step c claiming s = let (e, s') = write_record o path c.mine create s in (after_claim e, s')
  step c reading s = let (r, s') = fetch o path prefix s in (after_read c r, s')
  step c (taking_over f) s =
      let (e, s') = write_record o path c.mine (matching f.version) s in (after_take_over c e, s')
  step c confirming s = let (r, s') = fetch o path prefix s in (after_confirm c r, s')
  step c acquired s = (acquired, s)
  step c (refused e) s = (refused e, s)

  -- `acquire` on its own: no path of the code makes more than four store calls.
  unfoldable pub acquire : Claim → State → Phase o × State
  unfolding step
  acquire c s =
      let (p1, s1) = step c claiming s in
      let (p2, s2) = step c p1 s1 in let (p3, s3) = step c p2 s2 in step c p3 s3

  -- The process has an answer.
  abbrev pub IsDone : Phase o → Type 0
  IsDone acquired = Unit {0}
  IsDone (refused e) = Unit {0}
  IsDone _ = ⊥
