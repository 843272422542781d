-- ===== src/Sync/Wal.antt =====
-- sync/wal.rs: the write-ahead log, over the key-value store that it is kept in.
pub mod Keyed
pub mod Log
pub mod Append
pub mod Range
mod Tests
use rust_api.Prelude.{
  ℕ, zero, suc, ◌+◌, ◌-◌, ◌*◌, ◌/◌, ◌%◌, ◌^◌, ◌≤◌, ◌<◌, String, ◌≡◌, refl, sym, ap, ◌∙◌, subst, ◌≢◌,
  ◌↔◌, ◌⊎◌, inl, inr, Bool, true, false, not, ◌&&◌, ◌||◌, Option, none, some, List, [], ◌∷◌, ◌++◌,
  map, arith, str_eq, eq_iff, ltb, leb, ◌==◌, if◌then◌else◌, Bool-cases, Option-cases, length, take,
  All, count, ℤ, pos, negsuc, ltb_ℤ, leb_ℤ, ◌≤ℤ◌, ◌<ℤ◌, ◌-ℤ◌,
}
use rust_api.Records.{WalEntry, WalOp}
use rust_api.Fs.{FsError, Result, ok, err, StoreError, from_store_error, internal, is_fencing_loss}
use rust_api.Fs as Fs
use rust_api.Sync.Keys.{Key, key_eq}

-- What the log relies on: the store (crate `oxkv`) and the encoding (crate `serde_json`).
-- `get_bytes` reads, and `transact` is a transaction that sets each pair in turn and commits.
-- `lookup` is what is committed under a key. Any call may fail; the state says what it will do.
pub record KvStore : Type 1 where
  pub Bytes : Type 0
  pub State : Type 0
  pub get_bytes : Key → State → (StoreError ⊎ Option Bytes) × State
  pub transact : List (Key × Bytes) → State → Option StoreError × State
  pub lookup : Key → State → Option Bytes
  pub u64_to_vec : ℕ → Option Bytes
  pub u64_from_slice : Bytes → Option ℕ
  pub entry_to_vec : WalEntry → Option Bytes
  pub entry_from_slice : Bytes → Option WalEntry

-- What is under a key after the writes.
unfoldable pub written {ℓ} : {B : Type ℓ} → List (Key × B) → (Key → Option B) → Key → Option B
unfolding key_eq
written [] f k = f k
written ((j, b) ∷ ws) f k = written ws (λ i. if key_eq j i then some b else f i) k

-- What is documented of the calls.
module _ (o : KvStore) where
  open o use {
    Bytes, State, get_bytes, transact, lookup, u64_to_vec, u64_from_slice, entry_to_vec,
    entry_from_slice,
  }

  pub record KvLaws : Type 0 where
    pub get_keeps : (j k : Key) (s : State) → lookup k (get_bytes j s).1 ≡ lookup k s
    pub get_value :
        (k : Key) (s : State) (v : Option Bytes) → (get_bytes k s).0 ≡ inr v → lookup k s ≡ v
    -- A transaction that succeeds has written all its pairs.
    pub transact_ok :
        (ws : List (Key × Bytes)) (s : State)
        → (transact ws s).0 ≡ none
        → (k : Key) → lookup k (transact ws s).1 ≡ written ws (λ j. lookup j s) k
    -- One that fails has written none of them, or all after all (a lost answer).
    pub transact_atomic :
        (ws : List (Key × Bytes)) (s : State)
        → ((k : Key) → lookup k (transact ws s).1 ≡ lookup k s)
          ⊎ ((k : Key) → lookup k (transact ws s).1 ≡ written ws (λ j. lookup j s) k)
    pub u64_round_trip : (n : ℕ) (b : Bytes) → u64_to_vec n ≡ some b → u64_from_slice b ≡ some n
    pub entry_round_trip :
        (e : WalEntry) (b : Bytes) → entry_to_vec e ≡ some b → entry_from_slice b ≡ some e

-- "wal:seq"
unfoldable pub seq_key : Key
seq_key = b'w' ∷ b'a' ∷ b'l' ∷ b':' ∷ b's' ∷ b'e' ∷ b'q' ∷ []

-- The last `k` decimal digits of a number; of a `u64`, twenty are all, with zeros in front.
pub digits : ℕ → ℕ → Key
digits zero n = []
digits (suc k) n = digits k (n / 10) ++ (b'0' + n % 10) ∷ []

-- format!("wal:{seq:020}")
unfoldable pub entry_key : ℕ → Key
unfolding digits
entry_key seq = b'w' ∷ b'a' ∷ b'l' ∷ b':' ∷ digits 20 seq

module _ (o : KvStore) where
  open o use {
    Bytes, State, get_bytes, transact, u64_to_vec, u64_from_slice, entry_to_vec, entry_from_slice,
  }

  -- The head pointer from what stands under `seq_key`.
  pub read_head : StoreError ⊎ Option Bytes → Result ℕ
  read_head (inl e) = err (from_store_error e)
  read_head (inr none) = ok 0
  read_head (inr (some b)) = elim (u64_from_slice b) [
    | none ↦ err (internal "wal head pointer is undecodable")
    | some n ↦ ok n
  ]

  -- What the commit of an entry answers.
  committed : ℕ → Option StoreError → Result ℕ
  committed seq none = ok seq
  committed seq (some e) = err (from_store_error e)

  -- The transaction that adds an entry and moves the head.
  pub store_entry : WalEntry → State → Result ℕ × State
  unfolding entry_key seq_key committed
  store_entry entry s = elim (entry_to_vec entry) [
    | none ↦ (err (internal "entry"), s)
    | some val ↦ elim (u64_to_vec entry.seq) [
      | none ↦ (err (internal "head"), s)
      | some seq_val ↦
          let (e, s') = transact ((entry_key entry.seq, val) ∷ (seq_key, seq_val) ∷ []) s in
          (committed entry.seq e, s')
    ]
  ]

  -- The part of `append_entry_locked` after the head is read.
  pub append_after : WalOp → ℤ → Result ℕ → State → Result ℕ × State
  unfolding store_entry
  append_after op ts (err e) s = (err e, s)
  append_after op ts (ok cur) s =
      store_entry (record { seq = (cur + 1) % 2 ^ 64; op = op; ts = ts }) s

  -- `append_entry_locked`: the store is held for the whole call.
  unfoldable pub append_entry_locked : WalOp → ℤ → State → Result ℕ × State
  unfolding append_after read_head seq_key
  append_entry_locked op ts s =
      let (r, s') = get_bytes seq_key s in append_after op ts (read_head r) s'

  trips : Result ℕ → Bool
  trips (ok seq) = false
  trips (err e) = is_fencing_loss e

  -- `append_entry`: the Boolean is the fencing latch.
  pub append_entry : WalOp → ℤ → Bool × State → Result ℕ × Bool × State
  unfolding append_entry_locked trips
  append_entry op ts (latch, s) =
      let (r, s') = append_entry_locked op ts s in (r, latch || trips r, s')

  pub head : State → Result ℕ × State
  unfolding read_head seq_key
  head s = let (r, s') = get_bytes seq_key s in (read_head r, s')

  -- One entry of `range`.
  pub read_entry : ℕ → StoreError ⊎ Option Bytes → Result WalEntry
  read_entry seq (inl e) = err (from_store_error e)
  read_entry seq (inr none) = err (Fs.store "wal entry missing")
  read_entry seq (inr (some b)) = elim (entry_from_slice b) [
    | none ↦ err (internal "wal entry undecodable")
    | some e ↦ if e.seq == seq then ok e else err (internal "wal entry holds another sequence")
  ]

  pub put_first : Result WalEntry → Result (List WalEntry) → Result (List WalEntry)
  put_first (err x) rest = err x
  put_first (ok e) (err x) = err x
  put_first (ok e) (ok es) = ok (e ∷ es)

  pub stop_or :
      Result WalEntry → State → Result (List WalEntry) × State → Result (List WalEntry) × State
  unfolding put_first
  stop_or (err x) s later = (err x, s)
  stop_or (ok e) s (rest, s') = (put_first (ok e) rest, s')

  -- The loop of `range`: `n` entries from `seq` on, up to the first error.
  pub read_entries : ℕ → ℕ → State → Result (List WalEntry) × State
  unfolding read_entry stop_or entry_key
  read_entries zero seq s = (ok [], s)
  read_entries (suc n) seq s =
      let (r, s') = get_bytes (entry_key seq) s in
      stop_or (read_entry seq r) s' (read_entries n (suc seq) s')

  pub range : ℕ → ℕ → State → Result (List WalEntry) × State
  unfolding read_entries
  range from to s =
      if ltb to from
      then (err (Fs.store "wal range runs backwards"), s)
      else read_entries (to - from + 1) from s
