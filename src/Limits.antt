-- ===== src/Limits.antt =====
-- limits.rs: the token buckets of the API's peers. Floating-point numbers are an interface; an
-- instant is in nanoseconds, and so is what a clock reading is given as.
pub mod Room
pub mod Bounded
pub mod Spared
mod Tests
use rust_api.Prelude.{
  ◌+◌, false, zero, ltb, true, leb, ◌^◌, if◌then◌else◌, ◌-◌, ◌*◌, ◌∷◌, [], some, suc, none, Option,
  length, String, Bool, ℕ,
}
use rust_api.Prelude.Maps.{lookup, put, remove, Dict}

-- `f64`
pub record Floating (F : Type 0) : Type 0 where
  pub from_u32 : ℕ → F
  pub as_secs : ℕ → F
  pub add : F → F → F
  pub sub : F → F → F
  pub mul : F → F → F
  pub div : F → F → F
  pub min : F → F → F
  pub is_eq : F → F → Bool
  pub is_ge : F → F → Bool

pub record BucketState (F : Type 0) : Type 0 where
  pub tokens : F
  pub last : ℕ

pub record TokenBucket (F : Type 0) : Type 0 where
  pub capacity : F
  pub refill_per_sec : F
  pub buckets : Dict (BucketState F)
  pub since_sweep : ℕ

-- `MAX_TRACKED_PEERS`
unfoldable pub max_tracked_peers : ℕ
max_tracked_peers = 4096

-- `IDLE_SWEEP_EVERY`
unfoldable pub idle_sweep_every : ℕ
idle_sweep_every = 64

-- `IDLE_EVICT`
unfoldable pub idle_evict : ℕ
idle_evict = 600 * 10 ^ 9

module _ {F : Type 0} where
  -- `min_by_key` keeps the first of the least.
  unfoldable pub colder : String × ℕ → String × BucketState F → String × ℕ
  colder (k, t) (j, b) = if ltb b.last t then (j, b.last) else (k, t)

  unfoldable pub coldest_from : String × ℕ → Dict (BucketState F) → String × ℕ
  unfolding colder
  coldest_from p [] = p
  coldest_from p (e ∷ m) = coldest_from (colder p e) m

  unfoldable pub coldest : Dict (BucketState F) → Option String
  unfolding coldest_from
  coldest [] = none
  coldest ((k, b) ∷ m) = some (coldest_from (k, b.last) m).0

  unfoldable pub without : Option String → Dict (BucketState F) → Dict (BucketState F)
  unfolding remove
  without none m = m
  without (some k) m = remove k m

  -- The loop of `make_room`, with fuel for its rounds.
  unfoldable pub evict : ℕ → Dict (BucketState F) → Dict (BucketState F)
  unfolding coldest without max_tracked_peers
  evict zero m = m
  evict (suc n) m =
      let rest = evict n (without (coldest m) m) in
      if leb max_tracked_peers (length m) then rest else m

  unfoldable pub make_room : Dict (BucketState F) → Dict (BucketState F)
  unfolding evict
  make_room m = evict (length m) m

  unfoldable pub roomy : Option (BucketState F) → Dict (BucketState F) → Dict (BucketState F)
  unfolding make_room
  roomy (some b) m = m
  roomy none m = make_room m

  -- `sweep_due`, call after call; the counter stays below `idle_sweep_every`.
  unfoldable pub sweep_due : TokenBucket F → Bool × TokenBucket F
  unfolding idle_sweep_every
  sweep_due tb =
      if ltb (tb.since_sweep + 1) idle_sweep_every
      then (false, record tb { since_sweep = tb.since_sweep + 1 })
      else (true, record tb { since_sweep = tb.since_sweep + 1 - (tb.since_sweep + 1) })

  -- `retain`
  unfoldable pub retain_active : ℕ → Dict (BucketState F) → Dict (BucketState F)
  unfolding idle_evict
  retain_active now [] = []
  retain_active now ((k, b) ∷ m) =
      let rest = retain_active now m in
      if ltb (now - b.last) idle_evict then (k, b) ∷ rest else rest

  unfoldable pub entry_or : BucketState F → Option (BucketState F) → BucketState F
  entry_or new none = new
  entry_or new (some b) = b

module _ {F : Type 0} (float : Floating F) where
  open float use {from_u32, as_secs, add, sub, mul, div, min, is_eq, is_ge}

  unfoldable pub new : ℕ → ℕ → TokenBucket F
  unfolding idle_sweep_every
  new capacity per_minute = record {
    capacity = from_u32 capacity;
    refill_per_sec = div (from_u32 per_minute) (from_u32 60);
    buckets = [];
    since_sweep = idle_sweep_every - 1;
  }

  unfoldable pub is_disabled : TokenBucket F → Bool
  is_disabled tb = is_eq tb.refill_per_sec (from_u32 0)

  -- The tokens of a peer now, at most the capacity.
  unfoldable pub refilled : ℕ → TokenBucket F → BucketState F → F
  refilled now tb b =
      min (add b.tokens (mul (as_secs (now - b.last)) tb.refill_per_sec)) tb.capacity

  unfoldable pub spend : String → ℕ → F → TokenBucket F → Bool × TokenBucket F
  unfolding put
  spend key now tokens tb =
      if is_ge tokens (from_u32 1)
      then (
        true,
        record tb {
          buckets = put key (record { tokens = sub tokens (from_u32 1); last = now }) tb.buckets;
        },
      )
      else (
        false,
        record tb { buckets = put key (record { tokens = tokens; last = now }) tb.buckets },
      )

  -- `take` past the test whether the limit is off.
  unfoldable pub take_enabled : String → ℕ → TokenBucket F → Bool × TokenBucket F
  unfolding lookup roomy entry_or refilled spend
  take_enabled key now tb =
      let room = roomy (lookup key tb.buckets) tb.buckets in
      let state = entry_or (record { tokens = tb.capacity; last = now }) (lookup key room) in
      spend key now (refilled now tb state) (record tb { buckets = room })

  unfoldable pub take : String → ℕ → TokenBucket F → Bool × TokenBucket F
  unfolding is_disabled take_enabled
  take key now tb = if is_disabled tb then (true, tb) else take_enabled key now tb

  unfoldable pub evict_idle : ℕ → TokenBucket F → TokenBucket F
  unfolding is_disabled retain_active
  evict_idle now tb =
      if is_disabled tb then tb else record tb { buckets = retain_active now tb.buckets }

  -- The middleware's `call`: whether the request goes on to the service.
  unfoldable pub call : String → ℕ → ℕ → TokenBucket F → Bool × TokenBucket F
  unfolding sweep_due evict_idle take
  call key swept_at now tb =
      let (due, counted) = sweep_due tb in
      take key now (if due then evict_idle swept_at counted else counted)
