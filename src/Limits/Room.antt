-- ===== src/Limits/Room.antt =====
-- limits.rs: the room that is made for a new peer: who is given up, and how many entries stay.
use rust_api.Prelude.{
  str_eq, leb, ◌∙◌, sym, ap, ltb, eq_iff, Bool-cases, inl, arith, ◌<◌, ◌≤◌, ◌⊎◌, ◌≡◌, All, length,
  String, ℕ,
}
use rust_api.Limits.{
  TokenBucket, retain_active, without, max_tracked_peers, coldest, make_room, evict, BucketState,
  colder, coldest_from,
}
use rust_api.Prelude.Maps.{lookup, put, remove, Dict}
use rust_api.Prelude.{[], ◌∷◌, inl, inr, some, zero, suc, ◌≤◌, ◌<◌, refl, ltb→lt}

module _ {F : Type 0} where
  -- An entry of the map.
  abbrev pub HasEntry : String → ℕ → Dict (BucketState F) → Type 0
  HasEntry k t [] = ⊥
  HasEntry k t ((j, b) ∷ m) = ((j ≡ k) × (b.last ≡ t)) ⊎ HasEntry k t m

  abbrev pub NotBefore : ℕ → Dict (BucketState F) → Type 0
  NotBefore t m = All (λ (e : String × BucketState F). t ≤ e.1.last) m

  pub length-remove_le : (k : String) (m : Dict (BucketState F)) → length (remove k m) ≤ length m
  unfolding remove
  length-remove_le k [] = omega arith
  length-remove_le k ((j, b) ∷ m) = ground (arith, length-remove_le k m)

  pub length-remove :
      (k : String) (t : ℕ) (m : Dict (BucketState F))
      → HasEntry k t m
      → length (remove k m) < length m
  unfolding remove
  length-remove k t [] h = absurd h
  length-remove k t ((j, b) ∷ m) (inl (e, _)) =
      rw (e, (eq_iff k k).1 refl) (omega (arith, length-remove_le k m))
  length-remove k t ((j, b) ∷ m) (inr h) =
      ground (arith, length-remove k t m h, length-remove_le k m)

  colder-either :
      (p : String × ℕ) (e : String × BucketState F)
      → ((colder p e ≡ p) × (p.1 ≤ e.1.last)) ⊎ ((colder p e ≡ (e.0, e.1.last)) × (e.1.last ≤ p.1))
  unfolding colder
  colder-either (k, t) (j, b) = elim (Bool-cases (ltb b.last t)) [
    | inl x ↦ inr (rw x refl, omega (arith, ltb→lt b.last t x))
    | inr x ↦ inl (rw x refl, ground (arith, x))
  ]

  -- The coldest is an entry, and no entry was used before it.
  coldest_from-least :
      (p : String × ℕ) (m : Dict (BucketState F))
      → ((p ≡ coldest_from p m) ⊎ HasEntry (coldest_from p m).0 (coldest_from p m).1 m)
        × ((coldest_from p m).1 ≤ p.1)
        × NotBefore (coldest_from p m).1 m
  unfolding coldest_from
  coldest_from-least p [] = (inl refl, omega arith, tt)
  coldest_from-least p (e ∷ m) =
      let (found, low, all) = coldest_from-least (colder p e) m in
      elim (colder-either p e) [
        | inl (same, before) ↦
            let at = ap (λ x. x.1) same in
            (
              elim found [ inl h ↦ inl (sym same ∙ h) | inr h ↦ inr (inr h) ],
              omega (arith, low, at),
              (omega (arith, low, at, before), all),
            )
        | inr (same, before) ↦
            let at = ap (λ x. x.1) same in
            (
              elim found [
                | inl h ↦ let q = sym same ∙ h in inr (inl (ap (λ x. x.0) q, ap (λ x. x.1) q))
                | inr h ↦ inr (inr h)
              ],
              omega (arith, low, at, before),
              (omega (arith, low, at), all),
            )
      ]

  -- A map that is not empty has a coldest entry.
  pub coldest-some :
      (m : Dict (BucketState F))
      → 0 < length m
      → (k : String) × (t : ℕ) × (coldest m ≡ some k) × HasEntry k t m × NotBefore t m
  unfolding coldest
  coldest-some [] h = absurd (omega (arith, h))
  coldest-some ((k, b) ∷ m) h =
      let (found, low, all) = coldest_from-least (k, b.last) m in
      (
        (coldest_from (k, b.last) m).0,
        (coldest_from (k, b.last) m).1,
        refl,
        elim found [ inl q ↦ inl (ap (λ x. x.0) q, ap (λ x. x.1) q) | inr e ↦ inr e ],
        (low, all),
      )

  evict-below :
      (n : ℕ) (m : Dict (BucketState F)) → length m ≤ n → length (evict n m) < max_tracked_peers
  unfolding evict max_tracked_peers without
  evict-below zero m h = omega (arith, h)
  evict-below (suc n) m h = elim (Bool-cases (leb 4096 (length m))) [
    | inr x ↦ rw x (ground (arith, x))
    | inl x ↦
        let (k, t, q, e, all) = coldest-some m (ground (arith, x)) in
        rw (x, q) (evict-below n (remove k m) (omega (arith, length-remove k t m e, h)))
  ]

  pub make_room-below : (m : Dict (BucketState F)) → length (make_room m) < max_tracked_peers
  unfolding make_room
  make_room-below m = evict-below (length m) m (omega arith)

  pub length-put_le :
      (k : String) (v : BucketState F) (m : Dict (BucketState F))
      → length (put k v m) ≤ suc (length m)
  unfolding put
  length-put_le k v [] = omega arith
  length-put_le k v ((j, b) ∷ m) = ground (arith, length-put_le k v m)

  pub length-put_same :
      (k : String) (v b : BucketState F) (m : Dict (BucketState F))
      → lookup k m ≡ some b
      → length (put k v m) ≡ length m
  unfolding put lookup
  length-put_same k v b [] h = absurd (cc h)
  length-put_same k v b ((j, w) ∷ m) h = elim (Bool-cases (str_eq j k)) [
    | inl x ↦ rw x refl
    | inr x ↦ rw x (ap suc (length-put_same k v b m (rw x at h)))
  ]

  pub length-retain_le :
      (now : ℕ) (m : Dict (BucketState F)) → length (retain_active now m) ≤ length m
  unfolding retain_active
  length-retain_le now [] = omega arith
  length-retain_le now ((j, b) ∷ m) = ground (arith, length-retain_le now m)

  abbrev pub IsBounded : TokenBucket F → Type 0
  IsBounded tb = length tb.buckets ≤ max_tracked_peers
