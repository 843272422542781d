-- ===== src/Fs/Model.antt =====
-- fs/model.rs: the sizes that a client announces for an upload, and their validation.
use rust_api.Prelude.{
  ℕ, zero, suc, ◌+◌, ◌-◌, ◌*◌, ◌/◌, ◌%◌, ◌^◌, ◌≤◌, ◌<◌, ◌≡◌, refl, ◌∙◌, ◌↔◌, ◌⊎◌, Bool, not, ◌||◌,
  arith, ltb, leb, ◌==◌, if◌then◌else◌,
}
use native.Mathlib.Nat.{mul-le-mul, mul-le-mul_right, div-add-mod', mod-lt}
use rust_api.Fs.{Result, ok, err, bad_request}

pub record InitRequest : Type 0 where
  pub file_size : ℕ
  pub part_size : ℕ
  pub file_total_parts : ℕ

abbrev pub max_multipart_parts : ℕ
max_multipart_parts = 10000

-- `u64::div_ceil`, for a divisor that is not zero.
pub div_ceil : ℕ → ℕ → ℕ
div_ceil a b = if a % b == 0 then a / b else a / b + 1

-- `is_multiple_of`, for a divisor that is not zero.
is_multiple_of : ℕ → ℕ → Bool
is_multiple_of a b = a % b == 0

-- The checks of a single part.
validate_single : InitRequest → Result (Unit {0})
validate_single r =
    if not (r.part_size == r.file_size)
    then err (bad_request "For a single-part upload, part_size must be equal to the file_size")
    else if ltb (10 * 1024 * 1024) r.file_size
    then err (bad_request "For a single-part upload, cannot be bigger than 10 MB")
    else ok tt

-- The range checks at the end, on products that wrap as `u64`.
validate_range : InitRequest → Result (Unit {0})
validate_range r =
    let last_part_start = (r.file_total_parts - 1) * r.part_size % 2 ^ 64 in
    let covered = r.file_total_parts * r.part_size % 2 ^ 64 in
    if leb r.file_size last_part_start || ltb covered r.file_size
    then err (bad_request "Inconsistent math: file_size")
    else ok tt

-- The checks of several parts.
validate_multipart : InitRequest → Result (Unit {0})
unfolding div_ceil is_multiple_of validate_range
validate_multipart r =
    if ltb max_multipart_parts r.file_total_parts
    then err (bad_request "file_total_parts must be at most 10000")
    else if not (is_multiple_of r.part_size 1024) || not (leb r.part_size 524288)
    then err (bad_request "part_size must be a multiple of 1 KB up to 512 KB")
    else if not (r.file_total_parts == div_ceil r.file_size r.part_size)
    then err (bad_request "Inconsistent math: file_total_parts")
    else validate_range r

-- The messages leave out the numbers.
unfoldable pub validate : InitRequest → Result (Unit {0})
unfolding validate_single validate_multipart
validate r =
    if r.file_size == 0
    then err (bad_request "file_size cannot be empty")
    else if r.part_size == 0
    then err (bad_request "part_size cannot be zero")
    else if r.file_total_parts == 0
    then err (bad_request "total_parts cannot be zero")
    else if r.file_total_parts == 1
    then validate_single r
    else validate_multipart r

-- What the validation accepts: one part of at most 10 MB, or up to 10000 parts of a whole number
-- of KB, at most 512 KB, that cover the file and none of which is past its end.
abbrev pub IsSingle : InitRequest → Type 0
IsSingle r =
    (r.file_total_parts ≡ 1)
    × (r.part_size ≡ r.file_size)
    × (0 < r.file_size)
    × (r.file_size ≤ 10485760)

abbrev pub IsMultipart : InitRequest → Type 0
IsMultipart r =
    (2 ≤ r.file_total_parts)
    × (r.file_total_parts ≤ 10000)
    × (0 < r.part_size)
    × (r.part_size % 1024 ≡ 0)
    × (r.part_size ≤ 524288)
    × ((r.file_total_parts - 1) * r.part_size < r.file_size)
    × (r.file_size ≤ r.file_total_parts * r.part_size)

mul_mono : (a b p : ℕ) → a ≤ b → a * p ≤ b * p
mul_mono a b p h = mul-le-mul_right p h

-- A quotient and a remainder, rounded up.
round_up : ℕ → ℕ → ℕ
round_up q r = if r == 0 then q else q + 1

round_up-zero : (q : ℕ) → round_up q 0 ≡ q
unfolding round_up
round_up-zero q = refl

round_up-suc : (q r : ℕ) → round_up q (suc r) ≡ suc q
unfolding round_up
round_up-suc q r = ground arith

pred_suc : (q : ℕ) → suc q - 1 ≡ q
pred_suc q = omega arith

round_up_covers :
    (q r p f : ℕ)
    → q * p + r ≡ f
    → r < p
    → 0 < f
    → ((round_up q r - 1) * p < f) × (f ≤ round_up q r * p)
unfolding round_up
round_up_covers zero r p f e h k = ground arith
round_up_covers (suc q) zero p f e h k =
    rw (round_up-zero (suc q), pred_suc q) (omega arith, omega arith)
round_up_covers (suc q) (suc r) p f e h k =
    rw (round_up-suc (suc q) r, pred_suc (suc q)) (omega arith, omega arith)

round_up_unique :
    (q r p f n : ℕ) → q * p + r ≡ f → r < p → (n - 1) * p < f → f ≤ n * p → round_up q r ≡ n
unfolding round_up
round_up_unique q r p f zero e h k l = absurd (omega arith)
round_up_unique q r p f (suc n) e h k l =
    ground (arith, mul_mono (q + 1) n p, mul_mono (suc n) q p, mul_mono q n p, mul_mono (n + 2) q p)

div_ceil-round_up : (f p : ℕ) → div_ceil f p ≡ round_up (f / p) (f % p)
unfolding div_ceil round_up
div_ceil-round_up f p = refl

validate_single_iff :
    (r : InitRequest)
    → (validate_single r ≡ ok tt) ↔ ((r.part_size ≡ r.file_size) × (r.file_size ≤ 10485760))
unfolding validate_single
validate_single_iff r = (λ h. ground arith, λ h. ground arith)

product_small : (a p : ℕ) → a ≤ 10000 → p ≤ 524288 → a * p % 2 ^ 64 ≡ a * p
product_small a p h k = let bound : a * p ≤ 10000 * 524288 = mul-le-mul h k in omega (arith, bound)

validate_range_iff :
    (r : InitRequest)
    → r.file_total_parts ≤ 10000
    → r.part_size ≤ 524288
    → (validate_range r ≡ ok tt) ↔ (
        ((r.file_total_parts - 1) * r.part_size < r.file_size)
        × (r.file_size ≤ r.file_total_parts * r.part_size))
unfolding validate_range
validate_range_iff r h k =
    let first = product_small (r.file_total_parts - 1) r.part_size (omega arith) k in
    let all = product_small r.file_total_parts r.part_size h k in
    rw (first, all) (λ e. ground arith, λ e. ground arith)

div_ceil_covers : (f p : ℕ) → 0 < f → 0 < p → ((div_ceil f p - 1) * p < f) × (f ≤ div_ceil f p * p)
div_ceil_covers f p h k =
    rw (div_ceil-round_up f p)
      (round_up_covers (f / p) (f % p) p f (div-add-mod' f p) (mod-lt f k) h)

div_ceil_unique : (f p n : ℕ) → 0 < p → (n - 1) * p < f → f ≤ n * p → div_ceil f p ≡ n
div_ceil_unique f p n h k l =
    div_ceil-round_up f p
    ∙ round_up_unique (f / p) (f % p) p f n (div-add-mod' f p) (mod-lt f h) k l

validate_multipart_iff :
    (r : InitRequest)
    → 0 < r.file_size
    → 0 < r.part_size
    → 2 ≤ r.file_total_parts
    → (validate_multipart r ≡ ok tt) ↔ IsMultipart r
unfolding validate_multipart is_multiple_of
validate_multipart_iff r f p n = (
  λ e. ground (arith, validate_range_iff r, div_ceil_covers r.file_size r.part_size f p),
  λ e.
      ground
        (arith, validate_range_iff r, div_ceil_unique r.file_size r.part_size r.file_total_parts p),
)

-- Exactly the requests for one part of at most 10 MB, or for up to 10000 parts of whole KB and at
-- most 512 KB that cover the file with none to spare, are valid; no product wraps on the way.
pub validate_iff : (r : InitRequest) → (validate r ≡ ok tt) ↔ (IsSingle r ⊎ IsMultipart r)
unfolding validate
validate_iff r = (
  λ e. ground (arith, validate_single_iff r, validate_multipart_iff r),
  λ e. ground (arith, validate_single_iff r, validate_multipart_iff r),
)
