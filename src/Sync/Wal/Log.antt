-- ===== src/Sync/Wal/Log.antt =====
-- sync/wal.rs: what the log holds, and what appending makes of it.
use rust_api.Prelude.{
  ℕ, suc, ◌^◌, ◌<◌, ◌≡◌, refl, sym, ap, ◌∙◌, ◌≢◌, ◌⊎◌, inl, inr, false, none, some, List, [], ◌∷◌,
  arith, Bool-cases, length,
}
use rust_api.Records.{WalEntry}
use rust_api.Sync.Keys.{Key, key_eq, key_eq_iff}
use rust_api.Sync.Wal.{KvStore, KvLaws, written, seq_key, entry_key}
use rust_api.Sync.Wal.Keyed.{entry_key_injective, entry_key_ne_seq_key}

module _ (o : KvStore) where
  open o use {Bytes, State, lookup, u64_from_slice, entry_from_slice, get_bytes, transact}

  -- The head pointer says `n`.
  abbrev pub HeadIs : ℕ → State → Type 0
  HeadIs n s =
      ((n ≡ 0) × (lookup seq_key s ≡ none))
      ⊎ ((b : Bytes) × (lookup seq_key s ≡ some b) × (u64_from_slice b ≡ some n))

  -- The entry stands under its key.
  abbrev pub Holds : WalEntry → State → Type 0
  Holds e s = (b : Bytes) × (lookup (entry_key e.seq) s ≡ some b) × (entry_from_slice b ≡ some e)

  -- The entries, newest first, are numbered down to 1 without a gap, and each is stored.
  abbrev pub Stored : List WalEntry → State → Type 0
  Stored [] s = Unit {0}
  Stored (e ∷ es) s = (e.seq ≡ suc (length es)) × Holds e s × Stored es s

  -- The store holds the log of these entries, newest first.
  abbrev pub IsLog : List WalEntry → State → Type 0
  IsLog es s = HeadIs (length es) s × Stored es s

  -- Nothing is changed under any key.
  abbrev pub Same : State → State → Type 0
  Same s s' = (k : Key) → lookup k s' ≡ lookup k s

  pub Stored-Same : (es : List WalEntry) (s s' : State) → Same s s' → Stored es s → Stored es s'
  Stored-Same [] s s' h t = tt
  Stored-Same (e ∷ es) s s' h (q, (b, l, d), t) =
      (q, (b, h (entry_key e.seq) ∙ l, d), Stored-Same es s s' h t)

  pub IsLog-Same : (es : List WalEntry) (s s' : State) → Same s s' → IsLog es s → IsLog es s'
  IsLog-Same es s s' h (inl (n, l), t) = (inl (n, h seq_key ∙ l), Stored-Same es s s' h t)
  IsLog-Same es s s' h (inr (b, l, d), t) = (inr (b, h seq_key ∙ l, d), Stored-Same es s s' h t)

  -- The state after the transaction of an entry.
  abbrev pub Written : WalEntry → Bytes → Bytes → State → State → Type 0
  Written e val seq_val s s' =
      (k : Key)
      → lookup k s' ≡ written ((entry_key e.seq, val) ∷ (seq_key, seq_val) ∷ []) (λ j. lookup j s) k

  Written-head :
      (e : WalEntry) (val seq_val : Bytes) (s s' : State)
      → Written e val seq_val s s'
      → lookup seq_key s' ≡ some seq_val
  unfolding written
  Written-head e val seq_val s s' h = h seq_key ∙ rw ((key_eq_iff seq_key seq_key).1 refl) refl

  key_ne : (j k : Key) → j ≢ k → key_eq j k ≡ false
  key_ne j k n = elim (Bool-cases (key_eq j k)) [
    | inl e ↦ absurd (n ((key_eq_iff j k).0 e))
    | inr e ↦ e
  ]

  Written-entry :
      (e : WalEntry) (val seq_val : Bytes) (s s' : State)
      → Written e val seq_val s s'
      → lookup (entry_key e.seq) s' ≡ some val
  unfolding written
  Written-entry e val seq_val s s' h =
      let ne = key_ne seq_key (entry_key e.seq) (λ q. entry_key_ne_seq_key e.seq (sym q)) in
      h (entry_key e.seq) ∙ rw (ne, (key_eq_iff (entry_key e.seq) (entry_key e.seq)).1 refl) refl

  Written-other :
      (e : WalEntry) (val seq_val : Bytes) (s s' : State) (n : ℕ)
      → Written e val seq_val s s'
      → n < 2 ^ 64
      → e.seq < 2 ^ 64
      → n ≢ e.seq
      → lookup (entry_key n) s' ≡ lookup (entry_key n) s
  unfolding written
  Written-other e val seq_val s s' n h g l d =
      let ne = key_ne seq_key (entry_key n) (λ q. entry_key_ne_seq_key n (sym q)) in
      let ne' =
        key_ne (entry_key e.seq) (entry_key n) (λ q. d (sym (entry_key_injective e.seq n l g q))) in
      h (entry_key n) ∙ rw (ne, ne') refl

  Stored-Written :
      (es : List WalEntry) (e : WalEntry) (val seq_val : Bytes) (s s' : State)
      → Written e val seq_val s s'
      → e.seq < 2 ^ 64
      → length es < e.seq
      → Stored es s
      → Stored es s'
  Stored-Written [] e val seq_val s s' h g l t = tt
  Stored-Written (d ∷ es) e val seq_val s s' h g l (q, (b, f, c), t) =
      let same =
        Written-other e val seq_val s s' d.seq h (omega (arith, q, l, g)) g
          (λ x. omega (arith, x, q, l)) in
      (q, (b, same ∙ f, c), Stored-Written es e val seq_val s s' h g (omega (arith, l)) t)

module _ (o : KvStore) (laws : KvLaws o) where
  open o use {
    Bytes, State, lookup, u64_from_slice, entry_from_slice, get_bytes, transact, entry_to_vec,
    u64_to_vec,
  }

  pub IsLog-Written :
      (es : List WalEntry) (e : WalEntry) (val seq_val : Bytes) (s s' : State)
      → IsLog o es s
      → e.seq ≡ suc (length es)
      → e.seq < 2 ^ 64
      → entry_to_vec e ≡ some val
      → u64_to_vec e.seq ≡ some seq_val
      → Written o e val seq_val s s'
      → IsLog o (e ∷ es) s'
  IsLog-Written es e val seq_val s s' (hd, st) q g v w h = (
    inr (
      seq_val,
      Written-head o e val seq_val s s' h,
      laws.u64_round_trip e.seq seq_val w ∙ ap some q,
    ),
    (
      q,
      (val, Written-entry o e val seq_val s s' h, laws.entry_round_trip e val v),
      Stored-Written o es e val seq_val s s' h g (omega (arith, q)) st,
    ),
  )
