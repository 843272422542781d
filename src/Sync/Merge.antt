-- ===== src/Sync/Merge.antt =====
-- sync/snapshot.rs: the merge join of `build_full`, which stages the difference between the
-- filtered copy and the live replica.
pub mod Aligned
pub mod Lost
mod Tests
use rust_api.Sync.Keys.{cmp_lt_ne, key_eq_iff, cmp, Key, Value, key_eq}
use Prim.Native.Nat.{Ordering}
use rust_api.Prelude.{
  All-mono, ℕ, zero, suc, ◌+◌, ◌-◌, ◌*◌, ◌/◌, ◌%◌, ◌^◌, ◌≤◌, ◌<◌, String, ◌≡◌, refl, sym, ap, ◌∙◌,
  subst, ◌≢◌, ◌↔◌, ◌⊎◌, inl, inr, Bool, true, false, not, ◌&&◌, ◌||◌, Option, none, some, List, [],
  ◌∷◌, ◌++◌, map, arith, str_eq, eq_iff, ltb, leb, ◌==◌, if◌then◌else◌, Bool-cases, Option-cases,
  length, take, All, count, ℤ, pos, negsuc, ltb_ℤ, leb_ℤ, ◌≤ℤ◌, ◌<ℤ◌, ◌-ℤ◌,
}

pub record KeyValue : Type 0 where
  pub key : Key
  pub value : Value

pub data Staged : Type 0 where
  put_bytes : Key → Value → Staged
  delete : Key → Staged

-- "sync:applied"
unfoldable pub applied_key : Key
applied_key = b's' ∷ b'y' ∷ b'n' ∷ b'c' ∷ b':' ∷ b'a' ∷ b'p' ∷ b'p' ∷ b'l' ∷ b'i' ∷ b'e' ∷ b'd' ∷ []

-- What `next_data_key` yields, call by call, until the live pages end.
pub data_keys : List KeyValue → List KeyValue
unfolding applied_key key_eq
data_keys [] = []
data_keys (kv ∷ kvs) = if key_eq kv.key applied_key then data_keys kvs else kv ∷ data_keys kvs

-- One round of the loop where both sides have a key, by how the keys compare.
pub stage : Ordering → KeyValue → KeyValue → List Staged → List Staged
unfolding key_eq
stage Ordering.lt a b rest = put_bytes a.key a.value ∷ rest
stage Ordering.gt a b rest = delete b.key ∷ rest
stage Ordering.eq a b rest = if key_eq a.value b.value then rest else put_bytes a.key a.value ∷ rest

-- The loop: every round takes the next key of both sides.
pub merge : List KeyValue → List KeyValue → List Staged
unfolding stage cmp
merge [] [] = []
merge (a ∷ as') [] = put_bytes a.key a.value ∷ merge as' []
merge [] (b ∷ bs) = delete b.key ∷ merge [] bs
merge (a ∷ as') (b ∷ bs) = stage (cmp a.key b.key) a b (merge as' bs)

-- What the transaction stages in the end: nothing if no data changed and the marker already names
-- `head` (it is then rolled back), and otherwise the difference and the marker.
pub staged : Value → Bool → List Staged → List Staged
staged marker covered [] = if covered then [] else put_bytes applied_key marker ∷ []
staged marker covered (s ∷ ss) = (s ∷ ss) ++ put_bytes applied_key marker ∷ []

-- The diff of `build_full`, from the pages of the scratch store and of the live replica.
pub build_diff : Value → Bool → List KeyValue → List KeyValue → List Staged
unfolding merge staged data_keys
build_diff marker covered desired live = staged marker covered (merge desired (data_keys live))

-- The contents of a store.
abbrev pub Contents : Type 0
Contents = Key → Option Value

pub find : List KeyValue → Contents
unfolding key_eq
find [] k = none
find (kv ∷ kvs) k = if key_eq kv.key k then some kv.value else find kvs k

write : Staged → Contents → Contents
unfolding key_eq
write (put_bytes j v) f k = if key_eq j k then some v else f k
write (delete j) f k = if key_eq j k then none else f k

-- A committed transaction applies its writes in order.
pub commit : List Staged → Contents → Contents
unfolding write
commit [] f = f
commit (s ∷ ss) f = commit ss (write s f)

-- Every key comes after `k`.
abbrev pub Above : Key → List KeyValue → Type 0
Above k = All (λ kv. cmp k kv.key ≡ Ordering.lt)

-- Pages come in strict key order.
abbrev pub IsSorted : List KeyValue → Type 0
IsSorted [] = Unit {0}
IsSorted (kv ∷ kvs) = Above kv.key kvs × IsSorted kvs

-- `k` is none of the keys.
abbrev pub Avoids : Key → List KeyValue → Type 0
Avoids k = All (λ kv. kv.key ≢ k)

pub Above-Avoids : (k : Key) (l : List KeyValue) → Above k l → Avoids k l
Above-Avoids k l h = All-mono _ _ l (λ kv lt e. cmp_lt_ne k kv.key lt (sym e)) h

pub key_eq_ne : (j k : Key) → j ≢ k → key_eq j k ≡ false
key_eq_ne j k n = elim (Bool-cases (key_eq j k)) [
  | inl e ↦ absurd (n ((key_eq_iff j k).0 e))
  | inr e ↦ e
]

pub find-Avoids : (k : Key) (l : List KeyValue) → Avoids k l → find l k ≡ none
unfolding find
find-Avoids k [] h = refl
find-Avoids k (kv ∷ kvs) h = rw (key_eq_ne kv.key k h.0) (find-Avoids k kvs h.1)

-- What a round's write does to the contents.
pub effect : Ordering → KeyValue → KeyValue → Contents → Contents
unfolding write
effect Ordering.lt a b f = write (put_bytes a.key a.value) f
effect Ordering.gt a b f = write (delete b.key) f
effect Ordering.eq a b f = if key_eq a.value b.value then f else write (put_bytes a.key a.value) f

pub commit-stage :
    (o : Ordering) (a b : KeyValue) (rest : List Staged) (f : Contents)
    → commit (stage o a b rest) f ≡ commit rest (effect o a b f)
unfolding stage effect commit
commit-stage Ordering.lt a b rest f = refl
commit-stage Ordering.gt a b rest f = refl
commit-stage Ordering.eq a b rest f = elim (Bool-cases (key_eq a.value b.value)) [
  | inl e ↦ rw e
  | inr e ↦ rw e
]

pub commit-merge :
    (a b : KeyValue) (as' bs : List KeyValue) (f : Contents)
    → commit (merge (a ∷ as') (b ∷ bs)) f ≡ commit (merge as' bs) (effect (cmp a.key b.key) a b f)
unfolding merge
commit-merge a b as' bs f = commit-stage (cmp a.key b.key) a b (merge as' bs) f

pub effect_avoids :
    (o : Ordering) (a b : KeyValue) (f : Contents) (k : Key)
    → a.key ≢ k
    → b.key ≢ k
    → effect o a b f k ≡ f k
unfolding effect
effect_avoids Ordering.lt a b f k n m = rw (key_eq_ne a.key k n)
effect_avoids Ordering.gt a b f k n m = rw (key_eq_ne b.key k m)
effect_avoids Ordering.eq a b f k n m = elim (Bool-cases (key_eq a.value b.value)) [
  | inl e ↦ rw e
  | inr e ↦ rw (e, key_eq_ne a.key k n)
]

-- Keys on neither side are left alone.
pub merge-Avoids :
    (k : Key) (as' bs : List KeyValue) (f : Contents)
    → Avoids k as'
    → Avoids k bs
    → commit (merge as' bs) f k ≡ f k
unfolding merge commit write
merge-Avoids k [] [] f h g = refl
merge-Avoids k (a ∷ as') [] f h g =
    merge-Avoids k as' [] (write (put_bytes a.key a.value) f) h.1 tt ∙ rw (key_eq_ne a.key k h.0)
merge-Avoids k [] (b ∷ bs) f h g =
    merge-Avoids k [] bs (write (delete b.key) f) tt g.1 ∙ rw (key_eq_ne b.key k g.0)
merge-Avoids k (a ∷ as') (b ∷ bs) f h g = rw (commit-merge a b as' bs f) (
    merge-Avoids k as' bs (effect (cmp a.key b.key) a b f) h.1 g.1
    ∙ effect_avoids (cmp a.key b.key) a b f k h.0 g.0)
