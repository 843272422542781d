-- ===== src/Limits/Spared.antt =====
-- limits.rs: what a request of one peer does to the budgets of the others.
use rust_api.Limits.Bounded.{take_enabled-put}
use rust_api.Limits.Room.{length-remove, coldest-some, NotBefore, HasEntry}
use rust_api.Prelude.{
  ◌-◌, subst, true, ◌∙◌, ap, Option-cases, arith, leb, eq_iff, ◌⊎◌, Bool-cases, false, ◌≡◌, ℕ,
  str_eq, length, ◌≢◌, String, inl, inr, some, none, zero, suc, ◌≤◌, ◌<◌, refl,
}
use rust_api.Prelude.Maps.{lookup, remove, Dict, lookup-remove, lookup-put}
use rust_api.Limits.{
  coldest, is_disabled, TokenBucket, without, BucketState, roomy, max_tracked_peers, evict,
  make_room, Floating, take,
}

differs : (a b : String) → a ≢ b → str_eq a b ≡ false
differs a b h = elim (Bool-cases (str_eq a b)) [ inl x ↦ absurd (h ((eq_iff a b).0 x)) | inr x ↦ x ]

full_suc : (n : ℕ) → n ≡ max_tracked_peers → n ≡ suc (n - 1)
unfolding max_tracked_peers
full_suc n h = omega (arith, h)

module _ {F : Type 0} where
  -- A peer that is given up: the map is full, and no peer was used before it.
  abbrev pub IsColdest : String → Dict (BucketState F) → Type 0
  IsColdest j m = (length m ≡ max_tracked_peers) × ((t : ℕ) × HasEntry j t m × NotBefore t m)

  -- At the bound, a single round is enough.
  evict_once : (n : ℕ) (m : Dict (BucketState F)) → length m < max_tracked_peers → evict n m ≡ m
  unfolding evict max_tracked_peers
  evict_once zero m h = refl
  evict_once (suc n) m h = elim (Bool-cases (leb 4096 (length m))) [
    | inl x ↦ absurd (ground (arith, x, h))
    | inr x ↦ rw x refl
  ]

  make_room_idle : (m : Dict (BucketState F)) → length m < max_tracked_peers → make_room m ≡ m
  unfolding make_room
  make_room_idle m h = evict_once (length m) m h

  below_or_full :
      (m : Dict (BucketState F))
      → length m ≤ max_tracked_peers
      → (length m < max_tracked_peers) ⊎ (length m ≡ max_tracked_peers)
  unfolding max_tracked_peers
  below_or_full m h = omega (arith, h)

  evict_full :
      (n t : ℕ) (k : String) (m : Dict (BucketState F))
      → length m ≡ max_tracked_peers
      → coldest m ≡ some k
      → HasEntry k t m
      → evict (suc n) m ≡ remove k m
  unfolding evict max_tracked_peers without
  evict_full n t k m full q entry =
      let over : leb 4096 (length m) ≡ true = ground (arith, full) in
      rw (over, q) (evict_once n (remove k m) (omega (arith, full, length-remove k t m entry)))

  make_room-full :
      (t : ℕ) (k : String) (m : Dict (BucketState F))
      → length m ≡ max_tracked_peers
      → coldest m ≡ some k
      → HasEntry k t m
      → make_room m ≡ remove k m
  unfolding make_room max_tracked_peers
  make_room-full t k m full q entry =
      ap (λ n. evict n m) (full_suc (length m) full) ∙ evict_full (length m - 1) t k m full q entry

  make_room-spares :
      (j : String) (m : Dict (BucketState F))
      → length m ≤ max_tracked_peers
      → (lookup j (make_room m) ≡ lookup j m) ⊎ ((lookup j (make_room m) ≡ none) × IsColdest j m)
  unfolding max_tracked_peers
  make_room-spares j m h = elim (below_or_full m h) [
    | inl x ↦ inl (ap (lookup j) (make_room_idle m x))
    | inr x ↦
        let (k, t, q, entry, all) = coldest-some m (omega (arith, x)) in
        let room = ap (lookup j) (make_room-full t k m x q entry) ∙ lookup-remove k j m in
        elim (Bool-cases (str_eq k j)) [
          | inl y ↦
              let same = (eq_iff k j).0 y in
              inr (room ∙ rw y refl, (x, (t, subst (λ i. HasEntry i t m) same entry, all)))
          | inr y ↦ inl (room ∙ rw y refl)
        ]
  ]

module _ {F : Type 0} (float : Floating F) where
  -- With at most 4096 peers tracked, what one peer takes leaves the budget of another as it was, or
  -- the first is new, the map is full and the other is given up, since no peer was used before it.
  pub take-spares :
      (key j : String) (now : ℕ) (tb : TokenBucket F)
      → length tb.buckets ≤ max_tracked_peers
      → key ≢ j
      → (lookup j (take float key now tb).1.buckets ≡ lookup j tb.buckets)
        ⊎ ((lookup key tb.buckets ≡ none)
            × (lookup j (take float key now tb).1.buckets ≡ none)
            × IsColdest j tb.buckets)
  unfolding take roomy
  take-spares key j now tb h apart = elim (Bool-cases (is_disabled float tb)) [
    | inl x ↦ inl (rw x refl)
    | inr x ↦
        let (b, q) = take_enabled-put float key now tb in
        elim (Option-cases (lookup key tb.buckets)) [
          | inr (old, o) ↦
              inl (rw (x, q, o, lookup-put key j b tb.buckets, differs key j apart) refl)
          | inl o ↦ elim (make_room-spares j tb.buckets h) [
            | inl same ↦
                inl (
                  rw (x, q, o, lookup-put key j b (make_room tb.buckets), differs key j apart) same)
            | inr (gone, cold) ↦ inr (
              o,
              rw (x, q, o, lookup-put key j b (make_room tb.buckets), differs key j apart) gone,
              cold,
            )
          ]
        ]
  ]
