-- ===== src/Sync/Keys.antt =====
-- Store keys: the bytes of a string, in the order of `str::cmp`, and the contents of a store.
use Prim.Native.Nat.{compare, Ordering}
use rust_api.Prelude.{
  ℕ, ◌≡◌, refl, ap, ◌≢◌, ◌↔◌, Bool, true, false, ◌&&◌, List, [], ◌∷◌, arith, ◌==◌,
}

abbrev pub Key : Type 0
Key = List ℕ

abbrev pub Value : Type 0
Value = List ℕ

unfoldable pub cmp : Key → Key → Ordering
cmp [] [] = Ordering.eq
cmp [] (y ∷ ys) = Ordering.lt
cmp (x ∷ xs) [] = Ordering.gt
cmp (x ∷ xs) (y ∷ ys) = elim (compare x y) [
  | Ordering.lt ↦ Ordering.lt
  | Ordering.eq ↦ cmp xs ys
  | Ordering.gt ↦ Ordering.gt
]

-- `==` on strings and byte vectors.
unfoldable pub key_eq : Key → Key → Bool
key_eq [] [] = true
key_eq [] (y ∷ ys) = false
key_eq (x ∷ xs) [] = false
key_eq (x ∷ xs) (y ∷ ys) = x == y && key_eq xs ys

pub key_eq_iff : (a b : Key) → (key_eq a b ≡ true) ↔ (a ≡ b)
unfolding key_eq
key_eq_iff [] [] = (λ h. refl, λ h. refl)
key_eq_iff [] (y ∷ ys) = (λ h. cc, λ h. cc)
key_eq_iff (x ∷ xs) [] = (λ h. cc, λ h. cc)
key_eq_iff (x ∷ xs) (y ∷ ys) =
    (λ h. ground (arith, key_eq_iff xs ys), λ h. ground (arith, key_eq_iff xs ys))

pub cmp_eq : (a b : Key) → cmp a b ≡ Ordering.eq → a ≡ b
unfolding cmp
cmp_eq [] [] h = refl
cmp_eq [] (y ∷ ys) h = cc
cmp_eq (x ∷ xs) [] h = cc
cmp_eq (x ∷ xs) (y ∷ ys) h = ground (arith, cmp_eq xs ys)

pub cmp_self : (a : Key) → cmp a a ≡ Ordering.eq
unfolding cmp
cmp_self [] = refl
cmp_self (x ∷ xs) = ground (arith, cmp_self xs)

pub cmp_flip : (a b : Key) → cmp a b ≡ Ordering.gt → cmp b a ≡ Ordering.lt
unfolding cmp
cmp_flip [] [] h = cc
cmp_flip [] (y ∷ ys) h = cc
cmp_flip (x ∷ xs) [] h = refl
cmp_flip (x ∷ xs) (y ∷ ys) h = ground (arith, cmp_flip xs ys)

pub cmp_flip' : (a b : Key) → cmp a b ≡ Ordering.lt → cmp b a ≡ Ordering.gt
unfolding cmp
cmp_flip' [] [] h = cc
cmp_flip' [] (y ∷ ys) h = refl
cmp_flip' (x ∷ xs) [] h = cc
cmp_flip' (x ∷ xs) (y ∷ ys) h = ground (arith, cmp_flip' xs ys)

pub cmp_trans :
    (a b c : Key) → cmp a b ≡ Ordering.lt → cmp b c ≡ Ordering.lt → cmp a c ≡ Ordering.lt
unfolding cmp
cmp_trans [] [] c h k = cc
cmp_trans [] (y ∷ ys) [] h k = cc
cmp_trans [] (y ∷ ys) (z ∷ zs) h k = refl
cmp_trans (x ∷ xs) [] c h k = cc
cmp_trans (x ∷ xs) (y ∷ ys) [] h k = cc
cmp_trans (x ∷ xs) (y ∷ ys) (z ∷ zs) h k = ground (arith, cmp_trans xs ys zs)

pub cmp_lt_ne : (a b : Key) → cmp a b ≡ Ordering.lt → a ≢ b
cmp_lt_ne a b h e = cc (ap (cmp a) e, cmp_self a)
