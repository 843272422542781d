-- ===== src/Limits/Bounded.antt =====
-- limits.rs: how many peers are tracked after any requests.
use rust_api.Limits.Room.{
  length-put_same, length-retain_le, make_room-below, IsBounded, length-put_le,
}
use rust_api.Prelude.{
  ◌+◌, List, Option-cases, ltb, Bool-cases, inl, arith, ◌≤◌, ◌≡◌, length, String, ℕ,
}
use rust_api.Limits.{
  take, idle_sweep_every, refilled, is_disabled, sweep_due, entry_or, evict_idle, call, new, roomy,
  spend, take_enabled, TokenBucket, Floating, max_tracked_peers, make_room, BucketState,
}
use rust_api.Prelude.Maps.{lookup, put, Dict}
use rust_api.Prelude.{[], ◌∷◌, inl, inr, ◌≤◌, refl}

module _ {F : Type 0} (float : Floating F) where
  open float use {from_u32, sub, is_ge}

  pub spend-put :
      (key : String) (now : ℕ) (tokens : F) (tb : TokenBucket F)
      → (b : BucketState F) × ((spend float key now tokens tb).1.buckets ≡ put key b tb.buckets)
  unfolding spend
  spend-put key now tokens tb = elim (Bool-cases (is_ge tokens (from_u32 1))) [
    | inl x ↦ (record { tokens = sub tokens (from_u32 1); last = now }, rw x refl)
    | inr x ↦ (record { tokens = tokens; last = now }, rw x refl)
  ]

  -- What a peer takes is written into the map once there is room for it.
  pub take_enabled-put :
      (key : String) (now : ℕ) (tb : TokenBucket F)
      → (b : BucketState F) × ((take_enabled float key now tb).1.buckets
          ≡ put key b (roomy (lookup key tb.buckets) tb.buckets))
  unfolding take_enabled
  take_enabled-put key now tb =
      let room = roomy (lookup key tb.buckets) tb.buckets in
      let state = entry_or (record { tokens = tb.capacity; last = now }) (lookup key room) in
      spend-put key now (refilled float now tb state) (record tb { buckets = room })

  length-put-roomy :
      (key : String) (b : BucketState F) (m : Dict (BucketState F))
      → length m ≤ max_tracked_peers
      → length (put key b (roomy (lookup key m) m)) ≤ max_tracked_peers
  unfolding roomy
  length-put-roomy key b m h = elim (Option-cases (lookup key m)) [
    | inl n ↦ rw n (omega (arith, length-put_le key b (make_room m), make_room-below m))
    | inr (old, q) ↦ rw q (omega (arith, length-put_same key b old m q, h))
  ]

  take-IsBounded :
      (key : String) (now : ℕ) (tb : TokenBucket F)
      → IsBounded tb
      → IsBounded (take float key now tb).1
  unfolding take
  take-IsBounded key now tb h = elim (Bool-cases (is_disabled float tb)) [
    | inl x ↦ rw x h
    | inr x ↦
        let (b, q) = take_enabled-put key now tb in rw (x, q) (length-put-roomy key b tb.buckets h)
  ]

  evict_idle-IsBounded :
      (now : ℕ) (tb : TokenBucket F) → IsBounded tb → IsBounded (evict_idle float now tb)
  unfolding evict_idle
  evict_idle-IsBounded now tb h = elim (Bool-cases (is_disabled float tb)) [
    | inl x ↦ rw x h
    | inr x ↦ rw x (omega (arith, h, length-retain_le now tb.buckets))
  ]

  sweep_due-buckets : (tb : TokenBucket F) → (sweep_due tb).1.buckets ≡ tb.buckets
  unfolding sweep_due
  sweep_due-buckets tb = elim (Bool-cases (ltb (tb.since_sweep + 1) idle_sweep_every)) [
    | inl x ↦ rw x refl
    | inr x ↦ rw x refl
  ]

  call-IsBounded :
      (key : String) (swept_at now : ℕ) (tb : TokenBucket F)
      → IsBounded tb
      → IsBounded (call float key swept_at now tb).1
  unfolding call
  call-IsBounded key swept_at now tb h = elim (Bool-cases (sweep_due tb).0) [
    | inl x ↦ rw x (
        take-IsBounded key now (evict_idle float swept_at (sweep_due tb).1)
          (evict_idle-IsBounded swept_at (sweep_due tb).1 (rw (sweep_due-buckets tb) h)))
    | inr x ↦ rw x (take-IsBounded key now (sweep_due tb).1 (rw (sweep_due-buckets tb) h))
  ]

  -- Requests one after the other, each with its peer and the two readings of the clock.
  unfoldable pub calls : List (String × ℕ × ℕ) → TokenBucket F → TokenBucket F
  calls [] tb = tb
  calls ((key, swept_at, now) ∷ rest) tb = calls rest (call float key swept_at now tb).1

  calls-keep :
      (requests : List (String × ℕ × ℕ)) (tb : TokenBucket F)
      → IsBounded tb
      → IsBounded (calls requests tb)
  unfolding calls
  calls-keep [] tb h = h
  calls-keep ((key, swept_at, now) ∷ rest) tb h =
      calls-keep rest (call float key swept_at now tb).1 (call-IsBounded key swept_at now tb h)

  -- After any requests on a new limiter, at most 4096 peers are tracked.
  pub calls-IsBounded :
      (capacity per_minute : ℕ) (requests : List (String × ℕ × ℕ))
      → IsBounded (calls requests (new float capacity per_minute))
  unfolding new max_tracked_peers
  calls-IsBounded capacity per_minute requests =
      calls-keep requests (new float capacity per_minute) (omega arith)
