-- ===== src/Sync/Merge/Lost.antt =====
-- sync/snapshot.rs: where the merge join goes wrong, because every round drops the larger key too.
use rust_api.Sync.Keys.{cmp_eq, cmp_trans, cmp_lt_ne, cmp_flip', key_eq_iff, key_eq, cmp, Key}
use rust_api.Sync.Merge.{
  effect_avoids, put_bytes, Avoids, find-Avoids, commit-merge, Above-Avoids, merge-Avoids, delete,
  Above, key_eq_ne, IsSorted, Contents, commit, KeyValue, find, effect, write, merge,
}
use Prim.Native.Nat.{Ordering}
use rust_api.Prelude.{
  ◌≡◌, refl, sym, ◌∙◌, subst, ◌≢◌, inl, inr, none, some, List, [], ◌∷◌, Bool-cases,
}

not_key : (k j : Key) → cmp k j ≡ Ordering.lt → j ≢ k
not_key k j e q = cmp_lt_ne k j e (sym q)

-- Where the deleted key is not among the rest, the contents at `k` are again what the rest says.
deleted :
    (k : Key) (b : KeyValue) (bs : List KeyValue) (f : Contents)
    → Above b.key bs
    → f k ≡ find (b ∷ bs) k
    → write (delete b.key) f k ≡ find bs k
unfolding write find
deleted k b bs f up h = elim (Bool-cases (key_eq b.key k)) [
  | inl e ↦
      let same = (key_eq_iff b.key k).0 e in
      rw (e, find-Avoids k bs (subst (λ j. Avoids j bs) same (Above-Avoids b.key bs up)))
  | inr e ↦ rw e (h ∙ rw e)
]

skipped : (k : Key) (b : KeyValue) (bs : List KeyValue) → b.key ≢ k → find (b ∷ bs) k ≡ find bs k
unfolding find
skipped k b bs n = rw (key_eq_ne b.key k n)

-- A round with a desired key above `k` leaves at `k` what the rest of the live side says.
round-Above :
    (k : Key) (a b : KeyValue) (bs : List KeyValue) (f : Contents) (o : Ordering)
    → cmp a.key b.key ≡ o
    → cmp k a.key ≡ Ordering.lt
    → Above b.key bs
    → f k ≡ find (b ∷ bs) k
    → effect o a b f k ≡ find bs k
unfolding effect write
round-Above k a b bs f Ordering.lt e up t h =
    rw (key_eq_ne a.key k (not_key k a.key up))
      (h ∙ skipped k b bs (not_key k b.key (cmp_trans k a.key b.key up e)))
round-Above k a b bs f Ordering.gt e up t h = deleted k b bs f t h
round-Above k a b bs f Ordering.eq e up t h =
    let same = cmp_eq a.key b.key e in
    effect_avoids Ordering.eq a b f k (not_key k a.key up)
      (not_key k b.key (subst (λ j. cmp k j ≡ Ordering.lt) same up))
    ∙ h
    ∙ skipped k b bs (not_key k b.key (subst (λ j. cmp k j ≡ Ordering.lt) same up))

-- A key below all that is desired ends up missing, whether or not the live side still has it.
pub lost_at :
    (k : Key) (as' bs : List KeyValue) (f : Contents)
    → Above k as'
    → IsSorted bs
    → f k ≡ find bs k
    → commit (merge as' bs) f k ≡ none
unfolding merge commit write find
lost_at k [] [] f up t h = h
lost_at k (a ∷ as') [] f up t h = merge-Avoids k (a ∷ as') [] f (Above-Avoids k (a ∷ as') up) tt ∙ h
lost_at k [] (b ∷ bs) f up t h =
    lost_at k [] bs (write (delete b.key) f) tt t.1 (deleted k b bs f t.0 h)
lost_at k (a ∷ as') (b ∷ bs) f up t h = rw (commit-merge a b as' bs f) (
    lost_at k as' bs (effect (cmp a.key b.key) a b f) up.1 t.1
      (round-Above k a b bs f (cmp a.key b.key) refl up.0 t.0 h))

-- If the first live key comes before the first desired key, the first desired key is missing from
-- the replica after the commit.
pub merge_loses :
    (a b : KeyValue) (as' bs : List KeyValue)
    → IsSorted (a ∷ as')
    → IsSorted (b ∷ bs)
    → cmp b.key a.key ≡ Ordering.lt
    → commit (merge (a ∷ as') (b ∷ bs)) (find (b ∷ bs)) a.key ≡ none
unfolding effect write
merge_loses a b as' bs s t before =
    rw (commit-merge a b as' bs (find (b ∷ bs)), cmp_flip' b.key a.key before)
      (lost_at a.key as' bs (write (delete b.key) (find (b ∷ bs))) s.0 t.1
        (deleted a.key b bs (find (b ∷ bs)) t.0 refl))

-- If the first desired key comes before the first live key and the live key is not desired, the
-- live key stays in the replica after the commit.
pub merge_leaks :
    (a b : KeyValue) (as' bs : List KeyValue)
    → IsSorted (a ∷ as')
    → IsSorted (b ∷ bs)
    → cmp a.key b.key ≡ Ordering.lt
    → Avoids b.key (a ∷ as')
    → commit (merge (a ∷ as') (b ∷ bs)) (find (b ∷ bs)) b.key ≡ some b.value
unfolding effect write find
merge_leaks a b as' bs s t before apart =
    rw (commit-merge a b as' bs (find (b ∷ bs)), before)
      (merge-Avoids b.key as' bs (write (put_bytes a.key a.value) (find (b ∷ bs))) apart.1
          (Above-Avoids b.key bs t.0)
        ∙ rw (key_eq_ne a.key b.key apart.0, (key_eq_iff b.key b.key).1 refl))
