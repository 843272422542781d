-- ===== src/Prelude/Maps.antt =====
-- `BTreeMap` with numeric keys (a list in key order), and a string-keyed map that is never iterated.
use Prim.Native.Nat.{ℕ, suc, ◌≤◌, ◌<◌}
use Prim.Native.String.{String}
use mathlib.Core.Path.{◌≡◌, refl}
use mathlib.Core.List.{List, [], ◌∷◌}
use mathlib.Core.Option
use mathlib.Core.Option.{Option, none, some}
use native.Mathlib.Omega.{arith}
use text.Mathlib.Text.{◌==◌ as str_eq}
use text.Mathlib.TextEquality.{eq_iff}
use rust_api.Prelude.Tests.{ltb, ◌==◌, if◌then◌else◌}

abbrev pub OrderedMap {ℓ} : Type ℓ → Type ℓ
OrderedMap V = List (ℕ × V)

abbrev pub Dict {ℓ} : Type ℓ → Type ℓ
Dict V = List (String × V)

module _ {ℓ} {V : Type ℓ} where
  unfoldable pub get : ℕ → OrderedMap V → Option V
  get k [] = none
  get k ((j, v) ∷ m) = if j == k then some v else get k m

  unfoldable pub insert : ℕ → V → OrderedMap V → OrderedMap V
  insert k v [] = (k, v) ∷ []
  insert k v ((j, w) ∷ m) =
      if ltb k j then (k, v) ∷ (j, w) ∷ m else if j == k then (k, v) ∷ m else (j, w) ∷ insert k v m

  -- `get_mut` and a write through it.
  unfoldable pub update : ℕ → (V → V) → OrderedMap V → OrderedMap V
  update k f [] = []
  update k f ((j, v) ∷ m) = if j == k then (j, f v) ∷ m else (j, v) ∷ update k f m

  unfoldable pub map_values : (V → V) → OrderedMap V → OrderedMap V
  map_values f [] = []
  map_values f ((j, v) ∷ m) = (j, f v) ∷ map_values f m

  pub get-insert :
      (k j : ℕ) (v : V) (m : OrderedMap V)
      → get j (insert k v m) ≡ (if k == j then some v else get j m)
  unfolding get insert
  get-insert k j v [] = refl
  get-insert k j v ((i, w) ∷ m) = ground (arith, get-insert k j v m)

  pub get-update :
      (k j : ℕ) (f : V → V) (m : OrderedMap V)
      → get j (update k f m) ≡ (if k == j then Option.map f (get j m) else get j m)
  unfolding get update
  get-update k j f [] = ground arith
  get-update k j f ((i, w) ∷ m) = ground (arith, get-update k j f m)

  pub get-map_values :
      (j : ℕ) (f : V → V) (m : OrderedMap V) → get j (map_values f m) ≡ Option.map f (get j m)
  unfolding get map_values
  get-map_values j f [] = refl
  get-map_values j f ((i, w) ∷ m) = ground (arith, get-map_values j f m)

  unfoldable pub lookup : String → Dict V → Option V
  lookup k [] = none
  lookup k ((j, v) ∷ m) = if str_eq j k then some v else lookup k m

  unfoldable pub put : String → V → Dict V → Dict V
  put k v [] = (k, v) ∷ []
  put k v ((j, w) ∷ m) = if str_eq j k then (k, v) ∷ m else (j, w) ∷ put k v m

  unfoldable pub remove : String → Dict V → Dict V
  remove k [] = []
  remove k ((j, v) ∷ m) = if str_eq j k then remove k m else (j, v) ∷ remove k m

  pub lookup-remove :
      (k j : String) (m : Dict V)
      → lookup j (remove k m) ≡ (if str_eq k j then none else lookup j m)
  unfolding lookup remove
  lookup-remove k j [] = ground arith
  lookup-remove k j ((i, w) ∷ m) =
      ground (arith, eq_iff k j, eq_iff i k, eq_iff i j, lookup-remove k j m)

  pub remove-remove : (k : String) (m : Dict V) → remove k (remove k m) ≡ remove k m
  unfolding remove
  remove-remove k [] = refl
  remove-remove k ((j, v) ∷ m) = ground (arith, remove-remove k m)

  pub put-put : (k : String) (v : V) (m : Dict V) → put k v (put k v m) ≡ put k v m
  unfolding put
  put-put k v [] = ground (arith, eq_iff k k)
  put-put k v ((j, w) ∷ m) = ground (arith, eq_iff k k, put-put k v m)

  pub lookup-put :
      (k j : String) (v : V) (m : Dict V)
      → lookup j (put k v m) ≡ (if str_eq k j then some v else lookup j m)
  unfolding lookup put
  lookup-put k j v [] = refl
  lookup-put k j v ((i, w) ∷ m) =
      ground (arith, eq_iff k j, eq_iff i k, eq_iff i j, lookup-put k j v m)

module _ {ℓ κ} {V : Type ℓ} (P : ℕ → V → Type κ) where
  -- Every entry satisfies `P`.
  abbrev pub Entries : OrderedMap V → Type κ
  Entries [] = Unit
  Entries ((k, v) ∷ m) = P k v × Entries m

  pub Entries-get : (k : ℕ) (m : OrderedMap V) (v : V) → Entries m → get k m ≡ some v → P k v
  unfolding get
  Entries-get k [] v h e = cc
  Entries-get k ((j, w) ∷ m) v h e = ground (arith, Entries-get k m v h.1)

  pub Entries-insert :
      (k : ℕ) (v : V) (m : OrderedMap V) → P k v → Entries m → Entries (insert k v m)
  unfolding insert
  Entries-insert k v [] p h = (p, tt)
  Entries-insert k v ((j, w) ∷ m) p h = ground (arith, Entries-insert k v m p h.1)

  pub Entries-update :
      (k : ℕ) (f : V → V) (m : OrderedMap V)
      → ((v : V) → P k v → P k (f v))
      → Entries m
      → Entries (update k f m)
  unfolding update
  Entries-update k f [] p h = tt
  Entries-update k f ((j, w) ∷ m) p h =
      let rest = Entries-update k f m p h.1 in ground (arith, rest, p w)

  pub Entries-map_values :
      (f : V → V) (m : OrderedMap V)
      → ((k : ℕ) (v : V) → P k v → P k (f v))
      → Entries m
      → Entries (map_values f m)
  unfolding map_values
  Entries-map_values f [] p h = tt
  Entries-map_values f ((j, w) ∷ m) p h = (p j w h.0, Entries-map_values f m p h.1)

  pub Entries-update_at :
      (k : ℕ) (f : V → V) (m : OrderedMap V) (v : V)
      → get k m ≡ some v
      → P k (f v)
      → Entries m
      → Entries (update k f m)
  unfolding get update
  Entries-update_at k f [] v e p h = tt
  Entries-update_at k f ((j, w) ∷ m) v e p h = ground (arith, Entries-update_at k f m v, p, h, e)

module _ {ℓ} {V : Type ℓ} where
  -- The keys ascend strictly, from `n` on.
  abbrev pub Ascending : ℕ → OrderedMap V → Type 0
  Ascending n [] = Unit {0}
  Ascending n ((k, v) ∷ m) = (n ≤ k) × Ascending (suc k) m

  pub get_below : (n k : ℕ) (m : OrderedMap V) → Ascending n m → k < n → get k m ≡ none
  unfolding get
  get_below n k [] h b = refl
  get_below n k ((j, v) ∷ m) h b = ground (arith, get_below (suc j) k m h.1)

  pub insert-Ascending :
      (n k : ℕ) (v : V) (m : OrderedMap V) → Ascending n m → n ≤ k → Ascending n (insert k v m)
  unfolding insert
  insert-Ascending n k v [] h b = (b, tt)
  insert-Ascending n k v ((j, w) ∷ m) h b = ground (arith, insert-Ascending (suc j) k v m h.1)

  pub update-Ascending :
      (n k : ℕ) (f : V → V) (m : OrderedMap V) → Ascending n m → Ascending n (update k f m)
  unfolding update
  update-Ascending n k f [] h = tt
  update-Ascending n k f ((j, w) ∷ m) h = ground (arith, update-Ascending (suc j) k f m h.1)

  pub map_values-Ascending :
      (n : ℕ) (f : V → V) (m : OrderedMap V) → Ascending n m → Ascending n (map_values f m)
  unfolding map_values
  map_values-Ascending n f [] h = tt
  map_values-Ascending n f ((j, w) ∷ m) h = (h.0, map_values-Ascending (suc j) f m h.1)
