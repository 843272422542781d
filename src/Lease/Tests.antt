-- ===== src/Lease/Tests.antt =====
-- Runs of the lease code against a small object store that keeps one object, whose version is its
-- content.
use rust_api.Lease.Acquire.Outcome.{acquire_live}
use rust_api.Lease.Acquire.Facts.{IsAcquired}
use rust_api.Lease.Holder.{WriterLease}
use rust_api.Lease.Acquire.{acquire, acquired, refused, claiming, write_record, fetch, step, Claim}
use rust_api.Lease.Acquire.Exclusive.{race_exclusive, race}
use rust_api.Lease.{LeaseError, held, is_live_at, LeaseRecord}
use rust_api.Lease.Store.{
  overwrite, precondition, create, already_exists, matching, PutError, Allowed, PutMode, found,
  ObjectStore, Got, StoreLaws, missing,
}
use rust_api.Prelude.{
  String, ◌≡◌, refl, sym, ap, ◌≢◌, ◌⊎◌, inl, inr, Bool, true, false, ◌&&◌, Option, none, some, List,
  [], ◌∷◌, arith, str_eq, eq_iff, ◌==◌, if◌then◌else◌, Bool-cases, ℤ, pos, negsuc,
}

eq_ℤ : ℤ → ℤ → Bool
eq_ℤ (pos a) (pos b) = a == b
eq_ℤ (negsuc a) (negsuc b) = a == b
eq_ℤ _ _ = false

same : LeaseRecord → LeaseRecord → Bool
unfolding eq_ℤ
same a b =
    str_eq a.instance_id b.instance_id
    && (eq_ℤ a.claimed_at b.claimed_at
        && (eq_ℤ a.renewed_at b.renewed_at && (a.ttl_secs == b.ttl_secs && a.pid == b.pid)))

eq_ℤ→eq : (a b : ℤ) → eq_ℤ a b ≡ true → a ≡ b
unfolding eq_ℤ
eq_ℤ→eq (pos a) (pos b) h = ground arith
eq_ℤ→eq (negsuc a) (negsuc b) h = ground arith
eq_ℤ→eq (pos a) (negsuc b) h = cc
eq_ℤ→eq (negsuc a) (pos b) h = cc

same→eq : (a b : LeaseRecord) → same a b ≡ true → a ≡ b
unfolding same
same→eq a b h = ground (
  arith,
  eq_iff a.instance_id b.instance_id,
  eq_ℤ→eq a.claimed_at b.claimed_at,
  eq_ℤ→eq a.renewed_at b.renewed_at,
)

abbrev Cell : Type 0
Cell = Option LeaseRecord

look : String → Cell → Got LeaseRecord LeaseRecord × Cell
look p none = (missing, none)
look p (some r) = (found r r, some r)

store : String → LeaseRecord → PutMode LeaseRecord → Cell → Option PutError × Cell
unfolding same
store p b create none = (none, some b)
store p b create (some r) = (some already_exists, some r)
store p b overwrite c = (none, some b)
store p b (matching v) none = (some precondition, none)
store p b (matching v) (some r) = if same v r then (none, some b) else (some precondition, some r)

clear : String → Cell → Bool × Cell
clear p c = (true, none)

content : String → Cell → Option (LeaseRecord × LeaseRecord)
content p none = none
content p (some r) = some (r, r)

abbrev memory : ObjectStore
memory = record {
  Bytes = LeaseRecord;
  Version = LeaseRecord;
  State = Cell;
  to_vec = some;
  from_slice = some;
  get_opts = look;
  put_opts = store;
  delete = clear;
  object = content;
}

memory_put_ok :
    (p : String) (b : LeaseRecord) (m : PutMode LeaseRecord) (s : Cell)
    → (store p b m s).0 ≡ none
    → Allowed m (content p s) × ((v : LeaseRecord) × (content p (store p b m s).1 ≡ some (b, v)))
unfolding store content
memory_put_ok p b create none h = (refl, (b, refl))
memory_put_ok p b create (some r) h = absurd (cc)
memory_put_ok p b overwrite none h = (tt, (b, refl))
memory_put_ok p b overwrite (some r) h = (tt, (b, refl))
memory_put_ok p b (matching v) none h = absurd (cc)
memory_put_ok p b (matching v) (some r) h = elim (Bool-cases (same v r)) [
  | inl e ↦ ((r, ap (λ x. some (r, x)) (sym (same→eq v r e))), (b, rw e))
  | inr e ↦ absurd (cc (rw e at h))
]

memory_put_effect :
    (p : String) (b : LeaseRecord) (m : PutMode LeaseRecord) (s : Cell)
    → (content p (store p b m s).1 ≡ content p s)
      ⊎ (Allowed m (content p s)
          × ((v : LeaseRecord) × (content p (store p b m s).1 ≡ some (b, v))))
unfolding store content
memory_put_effect p b create none = inr (refl, (b, refl))
memory_put_effect p b create (some r) = inl refl
memory_put_effect p b overwrite none = inr (tt, (b, refl))
memory_put_effect p b overwrite (some r) = inr (tt, (b, refl))
memory_put_effect p b (matching v) none = inl refl
memory_put_effect p b (matching v) (some r) = elim (Bool-cases (same v r)) [
  | inl e ↦ inr ((r, ap (λ x. some (r, x)) (sym (same→eq v r e))), (b, rw e))
  | inr e ↦ inl (rw e)
]

memory_get_keeps : (p : String) (s : Cell) → content p (look p s).1 ≡ content p s
unfolding look content
memory_get_keeps p none = refl
memory_get_keeps p (some r) = refl

memory_get_found :
    (p : String) (s : Cell) (b v : LeaseRecord)
    → (look p s).0 ≡ found b v
    → content p s ≡ some (b, v)
unfolding look content
memory_get_found p none b v h = absurd (cc)
memory_get_found p (some r) b v h = cc

memory_get_missing : (p : String) (s : Cell) → (look p s).0 ≡ missing → content p s ≡ none
unfolding look content
memory_get_missing p none h = refl
memory_get_missing p (some r) h = absurd (cc)

memory_version_content :
    (p : String) (s t : Cell) (b c v : LeaseRecord)
    → content p s ≡ some (b, v)
    → content p t ≡ some (c, v)
    → b ≡ c
unfolding content
memory_version_content p none t b c v h k = absurd (cc)
memory_version_content p (some r) none b c v h k = absurd (cc)
memory_version_content p (some r) (some x) b c v h k = cc

memory_laws : StoreLaws memory
memory_laws = record {
  round_trip = λ r b e. sym e;
  get_keeps = memory_get_keeps;
  get_found = memory_get_found;
  get_missing = memory_get_missing;
  version_content = memory_version_content;
  put_ok = memory_put_ok;
  put_effect = memory_put_effect;
}

-- Two servers that start on an expired lease.
abbrev expired : LeaseRecord
expired = record {
  instance_id = "old";
  claimed_at = pos 0;
  renewed_at = pos 10;
  ttl_secs = 60;
  pid = 1;
}

abbrev left : Claim
left = record {
  mine = record {
    instance_id = "left";
    claimed_at = pos 100;
    renewed_at = pos 100;
    ttl_secs = 60;
    pid = 2;
  };
  now = pos 100;
}

abbrev right : Claim
right = record {
  mine = record {
    instance_id = "right";
    claimed_at = pos 100;
    renewed_at = pos 100;
    ttl_secs = 60;
    pid = 3;
  };
  now = pos 100;
}

abbrev turns : List Bool
turns = true ∷ false ∷ true ∷ false ∷ false ∷ true ∷ true ∷ []

-- Both read the expired record; the second to write is refused.
race_exclusive_run :
    race memory memory_laws "lease" "db" left right turns (claiming, claiming, some expired)
    ≡ (refused (held "db" right.mine (pos 0)), acquired, some right.mine)
unfolding race look store step fetch write_record is_live_at held
race_exclusive_run = refl

-- With the turns the other way round, the first gets it.
abbrev turned : List Bool
turned = false ∷ true ∷ false ∷ true ∷ true ∷ false ∷ false ∷ []

race_exclusive_example :
    ¬ IsAcquired memory
      (race memory memory_laws "lease" "db" left right turned (claiming, claiming, some expired)).1
unfolding race look store step fetch write_record is_live_at
race_exclusive_example =
    race_exclusive memory memory_laws "lease" "db" left right refl refl turned (some expired) tt

acquire_live_example :
    ((e : LeaseError) × ((acquire memory "lease" "db" left (some right.mine)).0 ≡ refused e))
    × (content "lease" (acquire memory "lease" "db" left (some right.mine)).1
        ≡ content "lease" (some right.mine))
unfolding content is_live_at
acquire_live_example =
    acquire_live memory memory_laws "lease" "db" left (some right.mine)
      (right.mine, right.mine, right.mine, refl, refl, refl)

apart : right.mine.instance_id ≢ left.mine.instance_id
apart e = cc ((eq_iff "right" "left").1 e)

-- `left` held the lease, and `right` has taken it over.
abbrev loser : WriterLease
loser = record { mine = left.mine; lost = false }
