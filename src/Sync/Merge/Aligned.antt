-- ===== src/Sync/Merge/Aligned.antt =====
-- sync/snapshot.rs: where the merge join is right, the keys of one side go on where the other's end.
use rust_api.Sync.Keys.{cmp_self, key_eq, key_eq_iff, Key, cmp}
use rust_api.Sync.Merge.{
  effect_avoids, commit-merge, find-Avoids, delete, Above-Avoids, Avoids, put_bytes, merge-Avoids,
  key_eq_ne, IsSorted, find, write, Contents, commit, merge, KeyValue, effect,
}
use mathlib.Core.Path.{fun_ext}
use rust_api.Prelude.{
  ◌≡◌, refl, sym, ap, ◌∙◌, subst, ◌≢◌, inl, inr, false, some, List, [], ◌∷◌, Bool-cases,
}

-- Round for round both sides have the same key, until one of them ends.
abbrev pub Aligned : List KeyValue → List KeyValue → Type 0
Aligned [] bs = Unit {0}
Aligned (a ∷ as') [] = Unit {0}
Aligned (a ∷ as') (b ∷ bs) = (a.key ≡ b.key) × Aligned as' bs

Aligned-nil : (as' : List KeyValue) → Aligned as' []
Aligned-nil [] = tt
Aligned-nil (a ∷ as') = tt

effect_same :
    (a b : KeyValue) (f : Contents)
    → a.key ≡ b.key
    → f a.key ≡ some b.value
    → effect (cmp a.key b.key) a b f a.key ≡ some a.value
unfolding effect
effect_same a b f e h =
    rw (← e, cmp_self a.key)
      (elim (Bool-cases (key_eq a.value b.value)) [
        | inl v ↦ rw v (h ∙ ap some (sym ((key_eq_iff a.value b.value).0 v)))
        | inr v ↦ rw (v, (key_eq_iff a.key a.key).1 refl)
      ])

find_skip : (k : Key) (kv : KeyValue) (l : List KeyValue) → kv.key ≢ k → find (kv ∷ l) k ≡ find l k
unfolding find
find_skip k kv l n = rw (key_eq_ne kv.key k n)

find_here :
    (k : Key) (kv : KeyValue) (l : List KeyValue) → kv.key ≡ k → find (kv ∷ l) k ≡ some kv.value
unfolding find
find_here k kv l e = rw ((key_eq_iff kv.key k).1 e)

ne_of_key_eq : (j k : Key) → key_eq j k ≡ false → j ≢ k
ne_of_key_eq j k e q = cc ((key_eq_iff j k).1 q)

merge-Aligned_at :
    (k : Key) (as' bs : List KeyValue) (f : Contents)
    → Aligned as' bs
    → IsSorted as'
    → IsSorted bs
    → f k ≡ find bs k
    → commit (merge as' bs) f k ≡ find as' k
unfolding merge commit write find
merge-Aligned_at k [] [] f al s t h = h
merge-Aligned_at k (a ∷ as') [] f al s t h = elim (Bool-cases (key_eq a.key k)) [
  | inl e ↦
      let same = (key_eq_iff a.key k).0 e in
      merge-Avoids k as' [] (write (put_bytes a.key a.value) f)
        (subst (λ j. Avoids j as') same (Above-Avoids a.key as' s.0)) tt
      ∙ rw e
  | inr e ↦
      merge-Aligned_at k as' [] (write (put_bytes a.key a.value) f) (Aligned-nil as') s.1 tt
        (rw e h)
      ∙ rw e
]
merge-Aligned_at k [] (b ∷ bs) f al s t h =
    merge-Aligned_at k [] bs (write (delete b.key) f) tt tt t.1
      (elim (Bool-cases (key_eq b.key k)) [
        | inl e ↦
            let same = (key_eq_iff b.key k).0 e in
            rw (e, find-Avoids k bs (subst (λ j. Avoids j bs) same (Above-Avoids b.key bs t.0)))
        | inr e ↦ rw e (h ∙ rw e)
      ])
merge-Aligned_at k (a ∷ as') (b ∷ bs) f al s t h =
    rw (commit-merge a b as' bs f) (elim (Bool-cases (key_eq a.key k)) [
      | inl e ↦
          let same = (key_eq_iff a.key k).0 e in
          let apart = subst (λ j. Avoids j as') same (Above-Avoids a.key as' s.0) in
          let apart' = subst (λ j. Avoids j bs) (sym al.0 ∙ same) (Above-Avoids b.key bs t.0) in
          merge-Avoids k as' bs (effect (cmp a.key b.key) a b f) apart apart'
          ∙ rw e (
              subst (λ j. effect (cmp a.key b.key) a b f j ≡ some a.value) same
                (effect_same a b f al.0 (ap f same ∙ h ∙ find_here k b bs (sym al.0 ∙ same))))
      | inr e ↦
          let n : a.key ≢ k = ne_of_key_eq a.key k e in
          let m : b.key ≢ k = λ q. n (al.0 ∙ q) in
          rw e (
            merge-Aligned_at k as' bs (effect (cmp a.key b.key) a b f) al.1 s.1 t.1
              (effect_avoids (cmp a.key b.key) a b f k n m ∙ h ∙ find_skip k b bs m))
    ])

-- Where the keys of the desired side and of the live side run in step until one side ends, the
-- committed diff leaves the replica with exactly the desired contents.
pub merge-Aligned :
    (desired live : List KeyValue)
    → IsSorted desired
    → IsSorted live
    → Aligned desired live
    → commit (merge desired live) (find live) ≡ find desired
merge-Aligned desired live s t al =
    fun_ext (λ k. merge-Aligned_at k desired live (find live) al s t refl)
