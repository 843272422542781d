-- ===== src/Sync/Wal/Append.antt =====
-- sync/wal.rs: what `append` does to the log, and what `head` answers.
use rust_api.Prelude.{
  ℕ, suc, ◌+◌, ◌%◌, ◌^◌, ◌<◌, ◌≡◌, refl, sym, ap, ◌∙◌, ◌⊎◌, inl, inr, Option, none, some, List, [],
  ◌∷◌, arith, Option-cases, length, ℤ,
}
use rust_api.Records.{WalEntry, WalOp}
use rust_api.Fs.{Result, ok, err, StoreError, FsError, from_store_error, internal}
use rust_api.Sync.Keys.{Key}
use rust_api.Sync.Wal.{
  KvStore, KvLaws, seq_key, entry_key, read_head, store_entry, append_after, append_entry_locked,
  committed, head,
}
use rust_api.Sync.Wal.Log.{IsLog, HeadIs, Same, IsLog-Same, IsLog-Written, Written}

module _ (o : KvStore) (laws : KvLaws o) where
  open o use {
    Bytes, State, lookup, u64_from_slice, entry_from_slice, get_bytes, transact, entry_to_vec,
    u64_to_vec,
  }

  pub read-Same : (k : Key) (s : State) → Same o s (get_bytes k s).1
  read-Same k s j = laws.get_keeps k j s

  read_head_value :
      (n : ℕ) (v : Option Bytes) (s : State)
      → HeadIs o n s
      → lookup seq_key s ≡ v
      → read_head o (inr v) ≡ ok n
  unfolding read_head
  read_head_value n none s (inl (z, l)) e = ap ok (sym z)
  read_head_value n none s (inr (b, l, d)) e = absurd (cc)
  read_head_value n (some c) s (inl (z, l)) e = absurd (cc)
  read_head_value n (some c) s (inr (b, l, d)) e =
      let same : c ≡ b = cc in rw (same, read_head) (rw d refl)

  -- The head of a log is read right, unless the store fails.
  read_head_log :
      (n : ℕ) (s : State) (r : StoreError ⊎ Option Bytes)
      → HeadIs o n s
      → ((v : Option Bytes) → r ≡ inr v → lookup seq_key s ≡ v)
      → (read_head o r ≡ ok n) ⊎ ((x : StoreError) × (read_head o r ≡ err (from_store_error x)))
  unfolding read_head
  read_head_log n s (inl x) h g = inr (x, refl)
  read_head_log n s (inr v) h g = inl (read_head_value n v s h (g v refl))

  -- The head of a log is the number of its entries; only a failing store keeps `head` from
  -- answering it.
  pub head_log :
      (es : List WalEntry) (s : State)
      → IsLog o es s
      → ((head o s).0 ≡ ok (length es))
        ⊎ ((x : StoreError) × ((head o s).0 ≡ err (from_store_error x)))
  unfolding head
  head_log es s h =
      read_head_log (length es) s (get_bytes seq_key s).0 h.0 (λ v e. laws.get_value seq_key s v e)

  module _ (es : List WalEntry) (e : WalEntry) (q : e.seq ≡ suc (length es))
      (g : e.seq < 2 ^ 64) where
    -- What a write of the entry may leave behind, and what its success says.
    Outcome : Result ℕ → State → Type 0
    Outcome r s' =
        (IsLog o es s' ⊎ IsLog o (e ∷ es) s')
        × ((n : ℕ) → r ≡ ok n → (n ≡ suc (length es)) × IsLog o (e ∷ es) s')

    unchanged : (x : FsError) (s : State) → IsLog o es s → Outcome (err x) s
    unfolding Outcome
    unchanged x s h = (inl h, λ n w. absurd (cc))

    commit-Outcome :
        (val seq_val : Bytes) (s s' : State) (x : Option StoreError)
        → IsLog o es s
        → entry_to_vec e ≡ some val
        → u64_to_vec e.seq ≡ some seq_val
        → (x ≡ none → Written o e val seq_val s s')
        → (Same o s s' ⊎ Written o e val seq_val s s')
        → Outcome (committed o e.seq x) s'
    unfolding Outcome committed
    commit-Outcome val seq_val s s' none h v w good any =
        let log = IsLog-Written o laws es e val seq_val s s' h q g v w (good refl) in
        (inr log, λ n p. (ground (arith, q, p), log))
    commit-Outcome val seq_val s s' (some x) h v w good (inl same) =
        (inl (IsLog-Same o es s s' same h), λ n p. absurd (cc))
    commit-Outcome val seq_val s s' (some x) h v w good (inr done) =
        (inr (IsLog-Written o laws es e val seq_val s s' h q g v w done), λ n p. absurd (cc))

    store_entry-Outcome :
        (s : State) → IsLog o es s → Outcome (store_entry o e s).0 (store_entry o e s).1
    unfolding store_entry
    store_entry-Outcome s h = elim (Option-cases (entry_to_vec e)) [
      | inl v ↦ rw (v, store_entry) (unchanged (internal "entry") s h)
      | inr (val, v) ↦ elim (Option-cases (u64_to_vec e.seq)) [
        | inl w ↦ rw (v, store_entry) (rw w (unchanged (internal "head") s h))
        | inr (seq_val, w) ↦
            let ws : List (Key × Bytes) = (entry_key e.seq, val) ∷ (seq_key, seq_val) ∷ [] in
            rw (v, store_entry)
              (rw w (
                commit-Outcome val seq_val s (transact ws s).1 (transact ws s).0 h v w
                  (laws.transact_ok ws s) (laws.transact_atomic ws s)))
      ]
    ]

  -- The entry that `append` would add to the log.
  abbrev pub next_entry : List WalEntry → WalOp → ℤ → WalEntry
  next_entry es op ts = record { seq = suc (length es); op = op; ts = ts }

  append_after-Outcome :
      (es : List WalEntry) (op : WalOp) (ts : ℤ) (r : Result ℕ) (s : State)
      → IsLog o es s
      → suc (length es) < 2 ^ 64
      → (r ≡ ok (length es)) ⊎ ((x : StoreError) × (r ≡ err (from_store_error x)))
      → (IsLog o es (append_after o op ts r s).1
          ⊎ IsLog o (next_entry es op ts ∷ es) (append_after o op ts r s).1)
        × ((n : ℕ)
            → (append_after o op ts r s).0 ≡ ok n
            → (n ≡ suc (length es))
              × IsLog o (next_entry es op ts ∷ es) (append_after o op ts r s).1)
  unfolding append_after Outcome
  append_after-Outcome es op ts r s h g (inr (x, e)) =
      rw (e, append_after) (inl h, λ n w. absurd (cc))
  append_after-Outcome es op ts r s h g (inl e) =
      let next : (length es + 1) % 2 ^ 64 ≡ suc (length es) = omega (arith, g) in
      rw (e, append_after) (rw next (store_entry-Outcome es (next_entry es op ts) refl g s h))

  append_entry_locked-Outcome :
      (es : List WalEntry) (op : WalOp) (ts : ℤ) (s : State)
      → IsLog o es s
      → suc (length es) < 2 ^ 64
      → (IsLog o es (append_entry_locked o op ts s).1
          ⊎ IsLog o (next_entry es op ts ∷ es) (append_entry_locked o op ts s).1)
        × ((n : ℕ)
            → (append_entry_locked o op ts s).0 ≡ ok n
            → (n ≡ suc (length es))
              × IsLog o (next_entry es op ts ∷ es) (append_entry_locked o op ts s).1)
  unfolding append_entry_locked
  append_entry_locked-Outcome es op ts s h g =
      append_after-Outcome es op ts (read_head o (get_bytes seq_key s).0) (get_bytes seq_key s).1
        (IsLog-Same o es s (get_bytes seq_key s).1 (read-Same seq_key s) h) g
        (read_head_log (length es) s (get_bytes seq_key s).0 h.0
          (λ v e. laws.get_value seq_key s v e))

  -- Whatever fails, an append leaves either the log as it was or the log with the new entry: the
  -- numbers never get a gap, if they fit a `u64`.
  pub append_atomic :
      (es : List WalEntry) (op : WalOp) (ts : ℤ) (s : State)
      → IsLog o es s
      → suc (length es) < 2 ^ 64
      → IsLog o es (append_entry_locked o op ts s).1
        ⊎ IsLog o (next_entry es op ts ∷ es) (append_entry_locked o op ts s).1
  append_atomic es op ts s h g = (append_entry_locked-Outcome es op ts s h g).0

  -- An append that answers a number has added the entry, under the next number.
  pub append_acknowledged :
      (es : List WalEntry) (op : WalOp) (ts : ℤ) (s : State) (n : ℕ)
      → IsLog o es s
      → suc (length es) < 2 ^ 64
      → (append_entry_locked o op ts s).0 ≡ ok n
      → (n ≡ suc (length es)) × IsLog o (next_entry es op ts ∷ es) (append_entry_locked o op ts s).1
  append_acknowledged es op ts s n h g e = (append_entry_locked-Outcome es op ts s h g).1 n e

  append_after_err :
      (op : WalOp) (ts : ℤ) (r : Result ℕ) (s : State)
      → ((x : FsError) × (r ≡ err x))
      → ((x : FsError) × ((append_after o op ts r s).0 ≡ err x))
        × ((append_after o op ts r s).1 ≡ s)
  unfolding append_after
  append_after_err op ts r s (x, e) = rw (e, append_after) ((x, refl), refl)

  read_head_corrupt :
      (r : StoreError ⊎ Option Bytes) (b : Bytes)
      → u64_from_slice b ≡ none
      → ((v : Option Bytes) → r ≡ inr v → some b ≡ v)
      → (x : FsError) × (read_head o r ≡ err x)
  unfolding read_head
  read_head_corrupt (inl x) b d h = (from_store_error x, refl)
  read_head_corrupt (inr none) b d h = absurd (cc (h none refl))
  read_head_corrupt (inr (some c)) b d h =
      let same : c ≡ b = cc (h (some c) refl) in
      (internal "wal head pointer is undecodable", rw (same, read_head) (rw d refl))

  -- An undecodable head pointer is never taken for an empty log: the append is refused, and nothing
  -- in the store is changed.
  pub append_corrupt :
      (op : WalOp) (ts : ℤ) (s : State) (b : Bytes)
      → lookup seq_key s ≡ some b
      → u64_from_slice b ≡ none
      → ((x : FsError) × ((append_entry_locked o op ts s).0 ≡ err x))
        × Same o s (append_entry_locked o op ts s).1
  unfolding append_entry_locked
  append_corrupt op ts s b l d =
      let (refusal, still) =
        append_after_err op ts (read_head o (get_bytes seq_key s).0) (get_bytes seq_key s).1 (
          read_head_corrupt (get_bytes seq_key s).0 b d
            (λ v e. sym l ∙ laws.get_value seq_key s v e)) in
      (refusal, λ k. ap (lookup k) still ∙ read-Same seq_key s k)
