-- ===== src/Lease.antt =====
-- lease.rs: the single-writer lease, its record, errors and the liveness test.
pub mod Store
pub mod Acquire
pub mod Holder
mod Tests
use rust_api.Prelude.{
  neg_part, pos_part, to_u64, checked_sub_i64, in_i64, ℕ, zero, suc, ◌+◌, ◌-◌, ◌*◌, ◌/◌, ◌%◌, ◌^◌,
  ◌≤◌, ◌<◌, String, ◌≡◌, refl, sym, ap, ◌∙◌, subst, ◌≢◌, ◌↔◌, ◌⊎◌, inl, inr, Bool, true, false, not,
  ◌&&◌, ◌||◌, Option, none, some, List, [], ◌∷◌, ◌++◌, map, arith, str_eq, eq_iff, ltb, leb, ◌==◌,
  if◌then◌else◌, Bool-cases, Option-cases, length, take, All, count, ℤ, pos, negsuc, ltb_ℤ, leb_ℤ,
  ◌≤ℤ◌, ◌<ℤ◌, ◌-ℤ◌,
}

pub record LeaseRecord : Type 0 where
  pub instance_id : String
  pub claimed_at : ℤ
  pub renewed_at : ℤ
  pub ttl_secs : ℕ
  pub pid : ℕ

-- `u64::try_from(age).is_ok_and(|age| age < ttl)`.
younger_than : ℕ → Option ℕ → Bool
younger_than ttl none = false
younger_than ttl (some age) = ltb age ttl

pub is_live_at : LeaseRecord → ℤ → Bool
unfolding checked_sub_i64 to_u64 younger_than
is_live_at r now = elim (checked_sub_i64 now r.renewed_at) [
  | some age ↦ younger_than r.ttl_secs (to_u64 age)
  | none ↦ true
]

pub data LeaseError : Type 0 where
  held_by : String → String → ℕ → ℤ → ℕ → ℤ → LeaseError
  corrupt : String → LeaseError
  io : String → LeaseError

-- `ttl.checked_sub(age).unwrap_or(0)` for an age that is a `u64`, and 0 for any other.
remaining : ℕ → Option ℕ → ℕ
remaining ttl none = 0
remaining ttl (some age) = if leb age ttl then ttl - age else 0

-- `i64::try_from(wait).unwrap_or(i64::MAX)`.
clamp_i64 : ℕ → ℤ
clamp_i64 n = if ltb n (2 ^ 63) then pos n else pos (2 ^ 63 - 1)

-- `LeaseError::held`: the holder, its age and how long until its lease is stale.
pub held : String → LeaseRecord → ℤ → LeaseError
unfolding remaining clamp_i64 to_u64
held prefix r age =
    held_by prefix r.instance_id r.pid age r.ttl_secs
      (clamp_i64 (remaining r.ttl_secs (to_u64 age)))

-- A lease is live exactly if its age is no negative number and below its TTL, or does not fit
-- an `i64`.
pub is_live_at_iff :
    (r : LeaseRecord) (now : ℤ)
    → (is_live_at r now ≡ true) ↔ (
        ((r.renewed_at ≤ℤ now)
          × (pos_part now + neg_part r.renewed_at
              < r.ttl_secs + (pos_part r.renewed_at + neg_part now))
          × (in_i64 (now -ℤ r.renewed_at) ≡ true))
        ⊎ (in_i64 (now -ℤ r.renewed_at) ≡ false))
unfolding is_live_at in_i64
is_live_at_iff r now = (λ h. ground arith, λ h. ground arith)

-- A holder whose clock runs ahead is taken for stale: any lease renewed after `now`, by less than
-- the range of an `i64`, is not live.
pub is_live_at_skewed :
    (r : LeaseRecord) (now : ℤ)
    → now <ℤ r.renewed_at
    → in_i64 (now -ℤ r.renewed_at) ≡ true
    → is_live_at r now ≡ false
unfolding is_live_at in_i64
is_live_at_skewed r now h k = ground arith
