-- ===== src/Sync/Wal/Range.antt =====
-- sync/wal.rs: what `range` reads of the log.
use rust_api.Prelude.{
  ℕ, zero, suc, ◌+◌, ◌-◌, ◌≤◌, ◌<◌, ◌≡◌, refl, sym, ◌∙◌, subst, ◌⊎◌, inl, inr, false, Option, none,
  some, List, [], ◌∷◌, arith, ltb, ◌==◌, if◌then◌else◌, Bool-cases, length,
}
use rust_api.Records.{WalEntry}
use rust_api.Fs.{Result, ok, err, StoreError, from_store_error}
use rust_api.Sync.Wal.{
  KvStore, KvLaws, entry_key, read_entry, read_entries, range, stop_or, put_first,
}
use rust_api.Sync.Wal.Log.{IsLog, Stored, Holds, Stored-Same}
use rust_api.Sync.Wal.Append.{read-Same}

-- The entry with a number, from the entries newest first.
pub entry_at : List WalEntry → ℕ → Option WalEntry
entry_at [] q = none
entry_at (e ∷ es) q = if e.seq == q then some e else entry_at es q

-- The list holds the entries with the numbers from `q` on.
abbrev pub Reads : List WalEntry → ℕ → List WalEntry → Type 0
Reads es q [] = Unit {0}
Reads es q (e ∷ l) = (entry_at es q ≡ some e) × Reads es (suc q) l

module _ (o : KvStore) (laws : KvLaws o) where
  open o use {Bytes, State, lookup, entry_from_slice, get_bytes}

  Stored-at :
      (es : List WalEntry) (s : State) (q : ℕ)
      → Stored o es s
      → 0 < q
      → q ≤ length es
      → (e : WalEntry) × (entry_at es q ≡ some e) × (e.seq ≡ q) × Holds o e s
  unfolding entry_at
  Stored-at [] s q t h g = absurd (omega (arith, h, g))
  Stored-at (e ∷ es) s q (n, b, t) h g = elim (Bool-cases (e.seq == q)) [
    | inl y ↦ (e, rw y refl, ground (arith, y), b)
    | inr y ↦
        let (d, at, same, b') = Stored-at es s q t h (ground (arith, n, y, g)) in
        (d, rw y at, same, b')
  ]

  -- One of the reads of `n` entries from `q` on fails, with this error, all before it having passed.
  abbrev pub Fails : ℕ → ℕ → State → StoreError → Type 0
  Fails zero q s x = ⊥
  Fails (suc n) q s x =
      ((get_bytes (entry_key q) s).0 ≡ inl x)
      ⊎ (((v : Option Bytes) × ((get_bytes (entry_key q) s).0 ≡ inr v))
          × Fails n (suc q) (get_bytes (entry_key q) s).1 x)

  read_entry_log :
      (q : ℕ) (e : WalEntry) (b : Bytes) (r : StoreError ⊎ Option Bytes)
      → e.seq ≡ q
      → entry_from_slice b ≡ some e
      → ((v : Option Bytes) → r ≡ inr v → some b ≡ v)
      → ((read_entry o q r ≡ ok e) × ((v : Option Bytes) × (r ≡ inr v)))
        ⊎ ((x : StoreError) × (r ≡ inl x) × (read_entry o q r ≡ err (from_store_error x)))
  unfolding read_entry
  read_entry_log q e b (inl x) n d h = inr (x, refl, refl)
  read_entry_log q e b (inr none) n d h = absurd (cc (h none refl))
  read_entry_log q e b (inr (some c)) n d h =
      let same : c ≡ b = cc (h (some c) refl) in
      inl (rw (same, read_entry) (rw d (ground (arith, n))), (some c, refl))

  -- What a run of the loop may answer.
  Answers : List WalEntry → ℕ → ℕ → State → Result (List WalEntry) → Type 0
  Answers es n q s r =
      ((l : List WalEntry) × (r ≡ ok l) × (length l ≡ n) × Reads es q l)
      ⊎ ((x : StoreError) × (r ≡ err (from_store_error x)) × Fails n q s x)

  stop_or-Answers :
      (es : List WalEntry) (n q : ℕ) (e : WalEntry) (r : Result WalEntry) (s : State)
      (later : Result (List WalEntry) × State)
      → entry_at es q ≡ some e
      → ((r ≡ ok e) × ((v : Option Bytes) × ((get_bytes (entry_key q) s).0 ≡ inr v)))
        ⊎ ((x : StoreError) × ((get_bytes (entry_key q) s).0 ≡ inl x)
            × (r ≡ err (from_store_error x)))
      → Answers es n (suc q) (get_bytes (entry_key q) s).1 later.0
      → Answers es (suc n) q s (stop_or o r (get_bytes (entry_key q) s).1 later).0
  unfolding Answers stop_or put_first
  stop_or-Answers es n q e r s later at (inr (x, failed, w)) k =
      inr (x, rw (w, stop_or) refl, inl failed)
  stop_or-Answers es n q e r s later at (inl (w, v)) (inl (l, y, m, rest)) =
      inl (e ∷ l, rw (w, stop_or) (rw (y, put_first) refl), omega (arith, m), (at, rest))
  stop_or-Answers es n q e r s later at (inl (w, v)) (inr (x, y, failed)) =
      inr (x, rw (w, stop_or) (rw (y, put_first) refl), inr (v, failed))

  read_entries-Answers :
      (es : List WalEntry) (n q : ℕ) (s : State)
      → Stored o es s
      → 0 < q
      → q + n ≤ suc (length es)
      → Answers es n q s (read_entries o n q s).0
  unfolding read_entries Answers
  read_entries-Answers es zero q s t h g = inl ([], refl, refl, tt)
  read_entries-Answers es (suc n) q s t h g =
      let (e, at, same, (b, l, d)) = Stored-at es s q t h (omega (arith, g)) in
      let here : lookup (entry_key q) s ≡ some b =
        subst (λ i. lookup (entry_key i) s ≡ some b) same l in
      let s' = (get_bytes (entry_key q) s).1 in
      stop_or-Answers es n q e (read_entry o q (get_bytes (entry_key q) s).0) s
        (read_entries o n (suc q) s') at
        (read_entry_log q e b (get_bytes (entry_key q) s).0 same d
          (λ v w. sym here ∙ laws.get_value (entry_key q) s v w))
        (read_entries-Answers es n (suc q) s'
          (Stored-Same o es s s' (read-Same o laws (entry_key q) s) t) (omega arith)
          (omega (arith, g)))

  -- On a log, a range from a number that is not zero to one that the log has, not backwards, answers
  -- the entries with exactly these numbers in order, or the error of a read of one of these entries that
  -- the store failed, all reads before it having passed.
  pub range_log :
      (es : List WalEntry) (from to : ℕ) (s : State)
      → IsLog o es s
      → 0 < from
      → from ≤ to
      → to ≤ length es
      → ((l : List WalEntry) × ((range o from to s).0 ≡ ok l)
          × (length l ≡ to + 1 - from)
          × Reads es from l)
        ⊎ ((x : StoreError) × ((range o from to s).0 ≡ err (from_store_error x))
            × Fails (to + 1 - from) from s x)
  unfolding range Answers
  range_log es from to s h p q r =
      let forwards : ltb to from ≡ false = ground (arith, q) in
      rw (forwards, range)
        (subst (λ n. Answers es n from s (read_entries o (to - from + 1) from s).0)
          (omega (arith, q))
          (read_entries-Answers es (to - from + 1) from s h.1 p (omega (arith, q, r))))
