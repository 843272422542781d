-- ===== src/Sync/Wal/Keyed.antt =====
-- sync/wal.rs: the keys of the log are all different.
use rust_api.Prelude.{
  length-append, ℕ, zero, suc, ◌+◌, ◌*◌, ◌/◌, ◌%◌, ◌^◌, ◌<◌, ◌≡◌, refl, sym, ap, ◌∙◌, ◌≢◌, [], ◌∷◌,
  ◌++◌, arith, length,
}
use rust_api.Sync.Keys.{Key}
use rust_api.Sync.Wal.{digits, seq_key, entry_key}
use mathlib.Core.List.{append_cancel_left}

last : Key → ℕ
last [] = 0
last (x ∷ []) = x
last (x ∷ y ∷ xs) = last (y ∷ xs)

init : Key → Key
init [] = []
init (x ∷ []) = []
init (x ∷ y ∷ xs) = x ∷ init (y ∷ xs)

last-append : (xs : Key) (x : ℕ) → last (xs ++ x ∷ []) ≡ x
unfolding last
last-append [] x = refl
last-append (y ∷ []) x = refl
last-append (y ∷ z ∷ xs) x = last-append (z ∷ xs) x

init-append : (xs : Key) (x : ℕ) → init (xs ++ x ∷ []) ≡ xs
unfolding init
init-append [] x = refl
init-append (y ∷ []) x = refl
init-append (y ∷ z ∷ xs) x = ap (λ l. y ∷ l) (init-append (z ∷ xs) x)

-- 10 to the power of `k`.
limit : ℕ → ℕ
limit zero = 1
limit (suc k) = 10 * limit k

last-digits : (k n : ℕ) → last (digits (suc k) n) ≡ b'0' + n % 10
unfolding digits
last-digits k n = last-append (digits k (n / 10)) (b'0' + n % 10)

init-digits : (k n : ℕ) → init (digits (suc k) n) ≡ digits k (n / 10)
unfolding digits
init-digits k n = init-append (digits k (n / 10)) (b'0' + n % 10)

digits_injective : (k m n : ℕ) → m < limit k → n < limit k → digits k m ≡ digits k n → m ≡ n
unfolding limit
digits_injective zero m n h g e = omega (arith, h, g)
digits_injective (suc k) m n h g e =
    let front = sym (init-digits k m) ∙ ap init e ∙ init-digits k n in
    let back = sym (last-digits k m) ∙ ap last e ∙ last-digits k n in
    let above : m / 10 ≡ n / 10 =
      digits_injective k (m / 10) (n / 10) (omega (arith, h)) (omega (arith, g)) front in
    omega (arith, above, back)

length-digits : (k n : ℕ) → length (digits k n) ≡ k
unfolding digits
length-digits zero n = refl
length-digits (suc k) n =
    omega
      (arith, length-append (digits k (n / 10)) ((b'0' + n % 10) ∷ []), length-digits k (n / 10))

pub entry_key_injective : (m n : ℕ) → m < 2 ^ 64 → n < 2 ^ 64 → entry_key m ≡ entry_key n → m ≡ n
unfolding entry_key limit
entry_key_injective m n h g e =
    digits_injective 20 m n (omega (arith, h)) (omega (arith, g))
      (append_cancel_left (b'w' ∷ b'a' ∷ b'l' ∷ b':' ∷ []) (digits 20 m) (digits 20 n) e)

pub entry_key_ne_seq_key : (n : ℕ) → entry_key n ≢ seq_key
unfolding entry_key seq_key
entry_key_ne_seq_key n e = omega (arith, ap length e, length-digits 20 n)
