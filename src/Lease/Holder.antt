-- ===== src/Lease/Holder.antt =====
-- lease.rs: `WriterLease::renew` and `release`, the calls of a process that holds the lease.
use rust_api.Lease.Acquire.Facts.{fetch_standing}
use rust_api.Lease.Acquire.{absent, fetched, fetch_error, fetch, Fetched, write_record, FetchResult}
use rust_api.Lease.Store.{StoreLaws, overwrite, ObjectStore}
use rust_api.Lease.{LeaseError, LeaseRecord}
use text.Mathlib.Text.{◌==◌ as str_eq}
use rust_api.Prelude.{
  String, ◌≡◌, refl, ap, ◌∙◌, ◌≢◌, ◌⊎◌, inl, inr, Bool, true, false, not, none, some, List, [], ◌∷◌,
  map, arith, str_eq, eq_iff, if◌then◌else◌, ℤ,
}

-- `path` is fixed when the lease is acquired.
pub record WriterLease : Type 0 where
  pub mine : LeaseRecord
  pub lost : Bool

module _ (o : ObjectStore) (path : String) where
  open o use {Bytes, Version, State, delete}

  -- Another instance's record was fetched.
  is_taken : LeaseRecord → Fetched o → Bool
  is_taken mine f = not (str_eq f.lease.instance_id mine.instance_id)

  lose : WriterLease → WriterLease
  lose w = record w { lost = true }

  -- The unconditional write at the end of `renew`.
  renew_write : ℤ → WriterLease → State → Bool × WriterLease × State
  unfolding lose
  renew_write now w s =
      let w' = record w { mine = record w.mine { renewed_at = now } } in
      let (e, s') = write_record o path w'.mine overwrite s in
      elim e [ none ↦ (true, w', s') | some x ↦ (false, lose w', s') ]

  renew_read : ℤ → WriterLease → FetchResult o → State → Bool × WriterLease × State
  unfolding is_taken lose renew_write
  renew_read now w absent s = renew_write now w s
  renew_read now w (fetch_error e) s = (false, lose w, s)
  renew_read now w (fetched f) s =
      if is_taken w.mine f then (false, lose w, s) else renew_write now w s

  -- `renew`: its answer, the lease and the store.
  unfoldable pub renew : ℤ → WriterLease → State → Bool × WriterLease × State
  unfolding renew_read fetch
  renew now w s =
      if w.lost then (false, w, s) else let (r, s') = fetch o path "" s in renew_read now w r s'

  release_read : WriterLease → FetchResult o → State → State
  unfolding is_taken
  release_read w absent s = (delete path s).1
  release_read w (fetch_error e) s = s
  release_read w (fetched f) s = if is_taken w.mine f then s else (delete path s).1

  pub release : WriterLease → State → State
  unfolding release_read fetch
  release w s = let (r, s') = fetch o path "" s in release_read w r s'

  -- Renewals at the given times.
  pub renew_all : List ℤ → WriterLease → State → List Bool × WriterLease × State
  renew_all [] w s = ([], w, s)
  renew_all (t ∷ ts) w s =
      let (b, w', s') = renew t w s in let (bs, w'', s'') = renew_all ts w' s' in (b ∷ bs, w'', s'')

  renew_write-lost :
      (now : ℤ) (w : WriterLease) (s : State)
      → w.lost ≡ false
      → (renew_write now w s).1.lost ≡ not (renew_write now w s).0
  unfolding renew_write
  renew_write-lost now w s h = ground arith

  renew_read-lost :
      (now : ℤ) (w : WriterLease) (r : FetchResult o) (s : State)
      → w.lost ≡ false
      → (renew_read now w r s).1.lost ≡ not (renew_read now w r s).0
  unfolding renew_read
  renew_read-lost now w absent s h = renew_write-lost now w s h
  renew_read-lost now w (fetch_error e) s h = refl
  renew_read-lost now w (fetched f) s h = ground (arith, renew_write-lost now w s h)

  -- A renewal answers `false` exactly if the lease is marked lost afterwards.
  pub renew-lost :
      (now : ℤ) (w : WriterLease) (s : State) → (renew now w s).1.lost ≡ not (renew now w s).0
  unfolding renew
  renew-lost now w s =
      ground (arith, renew_read-lost now w (fetch o path "" s).0 (fetch o path "" s).1)

  renew_all-stays :
      (ts : List ℤ) (w : WriterLease) (s : State)
      → w.lost ≡ true
      → renew_all ts w s ≡ (map (λ _. false) ts, w, s)
  unfolding renew_all renew
  renew_all-stays [] w s l = refl
  renew_all-stays (t ∷ ts) w s l = ground (arith, renew_all-stays ts w s l)

  -- Once a renewal answers `false`, every later one does too, and leaves the lease and the store as
  -- they are.
  pub renew_all-lost :
      (now : ℤ) (ts : List ℤ) (w : WriterLease) (s : State)
      → (renew now w s).0 ≡ false
      → renew_all ts (renew now w s).1 (renew now w s).2
        ≡ (map (λ _. false) ts, (renew now w s).1, (renew now w s).2)
  renew_all-lost now ts w s h =
      renew_all-stays ts (renew now w s).1 (renew now w s).2 (renew-lost now w s ∙ ap not h)

module _ (o : ObjectStore) (laws : StoreLaws o) (path : String) where
  open o use {Bytes, Version, State, from_slice, get_opts, object}

  -- Under `path` stands the record of another instance than `mine`.
  abbrev pub Taken : LeaseRecord → State → Type 0
  Taken mine s =
      (b : Bytes) × (v : Version) × (r : LeaseRecord) × (object path s ≡ some (b, v))
      × (from_slice b ≡ some r)
      × (r.instance_id ≢ mine.instance_id)

  fetch-object : (s : State) → object path (fetch o path "" s).1 ≡ object path s
  unfolding fetch
  fetch-object s = laws.get_keeps path s

  -- What a fetch answers while the record is another instance's.
  fetch-Taken :
      (mine : LeaseRecord) (s : State)
      → Taken mine s
      → ((f : Fetched o) × ((fetch o path "" s).0 ≡ fetched f) × (is_taken o path mine f ≡ true))
        ⊎ ((e : LeaseError) × ((fetch o path "" s).0 ≡ fetch_error e))
  unfolding is_taken
  fetch-Taken mine s (b, v, r, stored, decoded, other) =
      elim (fetch_standing o laws path "" path s b v r stored decoded) [
        | inl e ↦ inl (
          record { lease = r; version = v },
          e,
          ground (arith, eq_iff r.instance_id mine.instance_id),
        )
        | inr x ↦ inr x
      ]

  renew_read_taken :
      (now : ℤ) (w : WriterLease) (r : FetchResult o) (s : State)
      → ((f : Fetched o) × (r ≡ fetched f) × (is_taken o path w.mine f ≡ true))
        ⊎ ((e : LeaseError) × (r ≡ fetch_error e))
      → renew_read o path now w r s ≡ (false, record w { lost = true }, s)
  unfolding renew_read
  renew_read_taken now w r s (inl (f, e, t)) = rw (e, renew_read) (rw t)
  renew_read_taken now w r s (inr (x, e)) = rw (e, renew_read)

  -- While another instance's record stands, a renewal by a process that has not lost the lease
  -- answers `false`, marks it lost and leaves the object as it is.
  pub renew-Taken :
      (now : ℤ) (w : WriterLease) (s : State)
      → Taken w.mine s
      → w.lost ≡ false
      → ((renew o path now w s).0 ≡ false)
        × ((renew o path now w s).1.lost ≡ true)
        × (object path (renew o path now w s).2 ≡ object path s)
  unfolding renew
  renew-Taken now w s t l =
      let e =
        renew_read_taken now w (fetch o path "" s).0 (fetch o path "" s).1
          (fetch-Taken w.mine s t) in
      ground (arith, e, fetch-object s)

  -- While another instance's record stands, `release` leaves the object as it is.
  pub release-Taken :
      (w : WriterLease) (s : State)
      → Taken w.mine s
      → object path (release o path w s) ≡ object path s
  unfolding release release_read
  release-Taken w s t = elim (fetch-Taken w.mine s t) [
    | inl (f, e, k) ↦ rw (e, release_read) (rw k (fetch-object s))
    | inr (x, e) ↦ rw (e, release_read) (fetch-object s)
  ]
