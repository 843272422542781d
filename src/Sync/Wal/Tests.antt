-- ===== src/Sync/Wal/Tests.antt =====
-- Runs of the log on a store that keeps every pair it is given, newest first, and does not fail.
use rust_api.Prelude.{
  ℕ, ◌^◌, ◌<◌, ◌≡◌, refl, ◌⊎◌, inl, inr, Option, none, some, List, [], ◌∷◌, arith, if◌then◌else◌,
  length, pos,
}
use rust_api.Records.{WalEntry, WalOp, group_add}
use rust_api.Fs.{ok, err, StoreError, from_store_error}
use rust_api.Sync.Keys.{Key, key_eq}
use rust_api.Sync.Wal.{KvStore, KvLaws, written, seq_key, entry_key, append_entry_locked, range}
use rust_api.Sync.Wal.Log.{IsLog}
use rust_api.Sync.Wal.Append.{append_atomic, append_acknowledged}
use rust_api.Sync.Wal.Range.{Fails, Reads, range_log}

-- A value is a number or an entry.
data Stuff : Type 0 where
  number : ℕ → Stuff
  entry : WalEntry → Stuff
  garbage : Stuff

as_number : Stuff → Option ℕ
as_number (number n) = some n
as_number _ = none

as_entry : Stuff → Option WalEntry
as_entry (entry e) = some e
as_entry _ = none

abbrev Pairs : Type 0
Pairs = Key → Option Stuff

abbrev pairs : KvStore
pairs = record {
  Bytes = Stuff;
  State = Pairs;
  get_bytes = λ k s. (inr (s k), s);
  transact = λ ws s. (none, λ k. written ws s k);
  lookup = λ k s. s k;
  u64_to_vec = λ n. some (number n);
  u64_from_slice = as_number;
  entry_to_vec = λ e. some (entry e);
  entry_from_slice = as_entry;
}

pairs_laws : KvLaws pairs
unfolding as_number as_entry
pairs_laws = record {
  get_keeps = λ j k s. refl;
  get_value = λ k s v h. cc;
  transact_ok = λ ws s h k. refl;
  transact_atomic = λ ws s. inr (λ k. refl);
  u64_round_trip = λ n b h. cc;
  entry_round_trip = λ e b h. cc;
}

abbrev empty : Pairs
empty k = none

empty-IsLog : IsLog pairs [] empty
empty-IsLog = (inl (refl, refl), tt)

abbrev op : WalOp
op = group_add "ann" "staff"

-- The log with one entry.
abbrev first : WalEntry
first = record { seq = 1; op = op; ts = pos 5 }

appended : (append_entry_locked pairs op (pos 5) empty).0 ≡ ok 1
unfolding append_entry_locked written
appended = refl

fits : 1 < 2 ^ 64
fits = omega arith

append_acknowledged_example :
    (first.seq ≡ 1) × IsLog pairs (first ∷ []) (append_entry_locked pairs op (pos 5) empty).1
append_acknowledged_example =
    append_acknowledged pairs pairs_laws [] op (pos 5) empty 1 empty-IsLog fits appended

append_atomic_example :
    IsLog pairs [] (append_entry_locked pairs op (pos 5) empty).1
    ⊎ IsLog pairs (first ∷ []) (append_entry_locked pairs op (pos 5) empty).1
append_atomic_example = append_atomic pairs pairs_laws [] op (pos 5) empty empty-IsLog fits

-- A store that holds the first entry.
held_one : Pairs
held_one k =
    if key_eq k seq_key
    then some (number 1)
    else if key_eq k (entry_key 1)
    then some (entry first)
    else none

held_one-IsLog : IsLog pairs (first ∷ []) held_one
unfolding held_one seq_key entry_key as_number as_entry key_eq
held_one-IsLog = (inr (number 1, refl, refl), (refl, (entry first, refl, refl), tt))

range_log_example :
    ((l : List WalEntry) × ((range pairs 1 1 held_one).0 ≡ ok l)
      × (length l ≡ 1)
      × Reads (first ∷ []) 1 l)
    ⊎ ((x : StoreError) × ((range pairs 1 1 held_one).0 ≡ err (from_store_error x))
        × Fails pairs pairs_laws 1 1 held_one x)
range_log_example =
    range_log pairs pairs_laws (first ∷ []) 1 1 held_one held_one-IsLog (omega arith) (omega arith)
      (omega arith)

-- A store whose head pointer is no number.
torn : Pairs
torn k = some garbage
