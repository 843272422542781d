-- ===== src/Queue/Memory/Exclusive.antt =====
-- queue/memory.rs: a lease that has not run out is respected by every later `reserve`.
use rust_api.Queue.Memory.Reserve.{reserve-Leases, ids_of}
use rust_api.Prelude.Maps.{get-map_values, get}
use rust_api.Queue.Memory.Ordered.{step-IsOrdered, IsOrdered}
use rust_api.Queue.Memory.Consistent.{step-IsConsistent, IsConsistent}
use rust_api.Queue.Memory.{
  step, reserves, lease_record, reserve, Record, available, lapsed, sweep_record, State,
  sweep_expired,
}
use rust_api.Queue.{as_secs, leased, JobId, Duration}
use mathlib.Core.Option
use rust_api.Prelude.{
  true, sym, refl, ◌∙◌, inr, arith, inl, false, count, as_i64, add_i64, some, ◌<ℤ◌, String, ℤ, ℕ,
  ◌≡◌,
}

swept_keeps_lease :
    (t : ℤ) (s : State) (j : JobId) (r : Record) (holder : String) (expiry : ℤ)
    → get j s.records ≡ some r
    → r.status ≡ leased holder expiry
    → t <ℤ expiry
    → get j (sweep_expired t s).records ≡ some r
unfolding sweep_expired
swept_keeps_lease t s j r holder expiry e q h =
    rw (get-map_values, e, Option.map) (rw (q, sweep_record, lapsed) (ground arith))

leased_not_available :
    (now : ℤ) (r : Record) (holder : String) (expiry : ℤ)
    → r.status ≡ leased holder expiry
    → available now r ≡ false
unfolding available
leased_not_available now r holder expiry q = ground arith

held_not_free :
    (now : ℤ) (r r' : Record) (holder : String) (expiry : ℤ)
    → r.status ≡ leased holder expiry
    → some r ≡ some r'
    → available now r' ≡ true
    → ⊥
held_not_free now r r' holder expiry q same free = cc (leased_not_available now r holder expiry q)

-- A record that is leased past the time of the sweep is neither handed out nor changed.
pub reserve_respects_lease :
    (t now : ℤ) (worker : String) (limit : ℕ) (lease : Duration) (s : State) (j : JobId)
    (r : Record) (holder : String) (expiry : ℤ)
    → IsConsistent s
    → IsOrdered s
    → get j s.records ≡ some r
    → r.status ≡ leased holder expiry
    → t <ℤ expiry
    → (count j (ids_of (reserve t now worker limit lease s).0) ≡ 0)
      × (get j (reserve t now worker limit lease s).1.records ≡ some r)
reserve_respects_lease t now worker limit lease s j r holder expiry c o e q h =
    let kept = swept_keeps_lease t s j r holder expiry e q h in
    elim ((reserve-Leases t now worker limit lease s c o).each j) [
      | inl (z, same) ↦ (z, same ∙ kept)
      | inr (u, (r', found, free, _)) ↦
          absurd (held_not_free now r r' holder expiry q (sym kept ∙ found) free)
    ]

-- The record that is handed out is leased to the worker until the expiry.
handed_out :
    (t now : ℤ) (worker : String) (limit : ℕ) (lease : Duration) (s : State) (j : JobId)
    → IsConsistent s
    → IsOrdered s
    → count j (ids_of (reserve t now worker limit lease s).0) ≡ 1
    → (r : Record) × (get j (reserve t now worker limit lease s).1.records
        ≡ some (lease_record worker (add_i64 now (as_i64 (as_secs lease))) r))
handed_out t now worker limit lease s j c o e =
    elim ((reserve-Leases t now worker limit lease s c o).each j) [
      | inl (z, same) ↦ absurd (omega (arith, z, e))
      | inr (u, (r, _, _, held)) ↦ (r, held)
    ]

-- Two workers never hold the same job: what a first `reserve` handed out, a second one whose sweep
-- comes before the expiry does not hand out again.
pub reserve-reserve_disjoint :
    (t now : ℤ) (worker : String) (limit : ℕ) (lease : Duration) (t' now' : ℤ) (worker' : String)
    (limit' : ℕ) (lease' : Duration) (s : State) (j : JobId)
    → IsConsistent s
    → IsOrdered s
    → t' <ℤ add_i64 now (as_i64 (as_secs lease))
    → count j (ids_of (reserve t now worker limit lease s).0) ≡ 1
    → count j
        (ids_of (reserve t' now' worker' limit' lease' (reserve t now worker limit lease s).1).0)
      ≡ 0
unfolding step lease_record
reserve-reserve_disjoint t now worker limit lease t' now' worker' limit' lease' s j c o h e =
    let s1 = (reserve t now worker limit lease s).1 in
    let expiry = add_i64 now (as_i64 (as_secs lease)) in
    let (r, held) = handed_out t now worker limit lease s j c o e in
    (reserve_respects_lease t' now' worker' limit' lease' s1 j (lease_record worker expiry r) worker
      expiry (step-IsConsistent (reserves t now worker limit lease) s c)
      (step-IsOrdered (reserves t now worker limit lease) s o) held refl h).0
