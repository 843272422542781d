-- ===== src/Lease/Acquire/Facts.antt =====
-- lease.rs: what the store calls of `acquire` read, and what their writes leave in place.
use rust_api.Lease.Acquire.{
  absent, fetch_error, fetched, acquired, FetchResult, Fetched, taking_over, write_record, read_got,
  Phase, Claim, after_read, fetch,
}
use rust_api.Lease.{io, LeaseError, is_live_at, LeaseRecord}
use rust_api.Lease.Store.{
  missing, get_failed, found, matching, Allowed, PutMode, Got, StoreLaws, ObjectStore,
}
use rust_api.Prelude.{
  ◌⊎◌, String, ◌≡◌, refl, sym, ap, ◌∙◌, ◌≢◌, inl, inr, true, false, Option, none, some, Bool-cases,
  Option-cases,
}

module _ (o : ObjectStore) where
  open o use {Version, Bytes, State, to_vec, from_slice, object}

  -- The stored object under `p` is the record `r`.
  abbrev pub Holds : String → LeaseRecord → State → Type 0
  Holds p r s = (b : Bytes) × (v : Version) × (object p s ≡ some (b, v)) × (to_vec r ≡ some b)

  -- What a process has fetched and means to take over: some state had it, and it was stale.
  abbrev pub Sound : String → Claim → Phase o → Type 0
  Sound path c (taking_over f) =
      (is_live_at f.lease c.now ≡ false)
      × (t : State) × (b : Bytes) × (object path t ≡ some (b, f.version))
      × (from_slice b ≡ some f.lease)
  Sound path c _ = Unit {0}

  abbrev pub IsAcquired : Phase o → Type 0
  IsAcquired acquired = Unit {0}
  IsAcquired _ = ⊥

module _ (o : ObjectStore) (laws : StoreLaws o) (path prefix : String) where
  open o use {Bytes, Version, State, to_vec, from_slice, get_opts, put_opts, object}

  read_got_inv :
      (prefix : String) (g : Got Bytes Version) (f : Fetched o)
      → read_got o prefix g ≡ fetched f
      → (b : Bytes) × (g ≡ found b f.version) × (from_slice b ≡ some f.lease)
  unfolding read_got
  read_got_inv prefix missing f e = cc
  read_got_inv prefix (get_failed x) f e = cc
  read_got_inv prefix (found b v) f e = elim (Option-cases (from_slice b)) [
    | inl n ↦ absurd (absent_case n)
    | inr (r, q) ↦ (b, cc (rw (q, read_got) at e), q ∙ cc (rw (q, read_got) at e))
  ]
    where
      absent_case : from_slice b ≡ none → ⊥
      absent_case n = cc (rw (n, read_got) at e)

  pub write_takes :
      (p : String) (r : LeaseRecord) (m : PutMode Version) (s : State)
      → (write_record o p r m s).0 ≡ none
      → Allowed m (object p s) × Holds o p r (write_record o p r m s).1
  unfolding write_record
  write_takes p r m s e = elim (Option-cases (to_vec r)) [
    | inl n ↦ absurd (cc (rw (n, write_record) at e))
    | inr (b, q) ↦
        let (allowed, (v, stored)) = laws.put_ok p b m s (rw (q, write_record) at e) in
        (allowed, (b, v, rw (q, write_record) stored, q))
  ]

  pub write_keeps :
      (p : String) (r r' : LeaseRecord) (m : PutMode Version) (s : State)
      → Holds o p r' s
      → ¬ Allowed m (object p s)
      → Holds o p r' (write_record o p r m s).1
  unfolding write_record
  write_keeps p r r' m s (b, v, stored, q) forbidden = elim (Option-cases (to_vec r)) [
    | inl n ↦ rw (n, write_record) (b, v, stored, q)
    | inr (c, k) ↦ elim (laws.put_effect p c m s) [
      | inl same ↦ (b, v, rw (k, write_record) (same ∙ stored), q)
      | inr (allowed, _) ↦ absurd (forbidden allowed)
    ]
  ]

  -- A write that is not allowed fails and leaves the object as it is.
  pub write_forbidden :
      (p : String) (r : LeaseRecord) (m : PutMode Version) (s : State)
      → ¬ Allowed m (object p s)
      → ((write_record o p r m s).0 ≢ none) × (object p (write_record o p r m s).1 ≡ object p s)
  unfolding write_record
  write_forbidden p r m s forbidden = elim (Option-cases (to_vec r)) [
    | inl n ↦ rw (n, write_record) ((λ e. cc), refl)
    | inr (c, k) ↦ elim (laws.put_effect p c m s) [
      | inl same ↦ rw (k, write_record) ((λ e. forbidden (laws.put_ok p c m s e).0), same)
      | inr (allowed, _) ↦ absurd (forbidden allowed)
    ]
  ]

  -- Where a record stands, a fetch finds it or fails.
  pub fetch_standing :
      (p : String) (s : State) (b : Bytes) (v : Version) (r : LeaseRecord)
      → object p s ≡ some (b, v)
      → from_slice b ≡ some r
      → ((fetch o p prefix s).0 ≡ fetched (record { lease = r; version = v }))
        ⊎ ((e : LeaseError) × ((fetch o p prefix s).0 ≡ fetch_error e))
  unfolding fetch read_got
  fetch_standing p s b v r stored decoded = go (get_opts p s).0 refl
    where
      go :
          (g : Got Bytes Version)
          → (get_opts p s).0 ≡ g
          → ((fetch o p prefix s).0 ≡ fetched (record { lease = r; version = v }))
            ⊎ ((e : LeaseError) × ((fetch o p prefix s).0 ≡ fetch_error e))
      go missing e = absurd (cc (laws.get_missing p s e))
      go (get_failed x) e = inr (io prefix, rw (e, fetch))
      go (found c w) e =
          let here = laws.get_found p s c w e in
          let readable : from_slice c ≡ some r = cc here in
          let version : w ≡ v = cc here in inl (rw (e, fetch) (rw (readable, read_got, version)))

  pub fetch_keeps :
      (p prefix : String) (r : LeaseRecord) (s : State)
      → Holds o p r s
      → Holds o p r (fetch o p prefix s).1
  unfolding fetch
  fetch_keeps p prefix r s (b, v, stored, q) = (b, v, laws.get_keeps p s ∙ stored, q)

  pub after_read-Sound :
      (c : Claim) (r : FetchResult o) (s : State)
      → ((f : Fetched o)
          → r ≡ fetched f
          → (b : Bytes) × (object path s ≡ some (b, f.version)) × (from_slice b ≡ some f.lease))
      → Sound o path c (after_read o path prefix c r)
        × (¬ IsAcquired o (after_read o path prefix c r))
  unfolding after_read
  after_read-Sound c absent s h = (tt, λ e. e)
  after_read-Sound c (fetch_error x) s h = (tt, λ e. e)
  after_read-Sound c (fetched f) s h = elim (Bool-cases (is_live_at f.lease c.now)) [
    | inl e ↦ rw (e, after_read) (tt, λ x. x)
    | inr e ↦ rw (e, after_read) (let (b, k, d) = h f refl in (e, s, b, k, d), λ x. x)
  ]

  pub fetched_object :
      (c : Claim) (s : State) (f : Fetched o)
      → (fetch o path prefix s).0 ≡ fetched f
      → (b : Bytes) × (object path s ≡ some (b, f.version)) × (from_slice b ≡ some f.lease)
  unfolding fetch
  fetched_object c s f e =
      let (b, g, d) = read_got_inv prefix (get_opts path s).0 f e in
      (b, laws.get_found path s b f.version g, d)

  -- A live record is not what a process means to take over.
  pub cannot_match :
      (c d : Claim) (f : Fetched o) (s : State)
      → is_live_at d.mine c.now ≡ true
      → Sound o path c (taking_over f)
      → Holds o path d.mine s
      → ¬ Allowed (matching f.version) (object path s)
  cannot_match c d f s live (stale, t, b, seen, decoded) (b', v', stored, encoded) (x, now_there) =
      let here : object path s ≡ some (b', f.version) =
        stored ∙ version_same b' v' f.version (sym now_there ∙ stored) in
      let same : b ≡ b' = laws.version_content path t s b b' f.version seen here in
      let mine : some f.lease ≡ some d.mine =
        sym decoded ∙ ap from_slice same ∙ laws.round_trip d.mine b' encoded in
      live_and_stale f.lease d.mine mine live stale
    where
      version_same :
          (b : Bytes) (v w : Version) {x : Bytes}
          → ◌≡◌ {A = Option (Bytes × Version)} (some (x, w)) (some (b, v))
          → ◌≡◌ {A = Option (Bytes × Version)} (some (b, v)) (some (b, w))
      version_same b v w e = cc

      live_and_stale :
          (r r' : LeaseRecord)
          → some r ≡ some r'
          → is_live_at r' c.now ≡ true
          → is_live_at r c.now ≡ false
          → ⊥
      live_and_stale r r' e l k = cc

  pub stored_some : (p : String) (r : LeaseRecord) (s : State) → Holds o p r s → object p s ≢ none
  stored_some p r s (b, v, stored, q) e = cc
