-- ===== src/Fs/Upload/Parts.antt =====
-- fs/model.rs and fs/mod.rs: the parts of a valid upload are those of the file.
use rust_api.Prelude.{
  ℕ, zero, suc, ◌+◌, ◌-◌, ◌*◌, ◌^◌, ◌≤◌, ◌<◌, ◌≡◌, ap, ◌∙◌, subst, ◌⊎◌, inl, inr, arith,
}
use rust_api.Fs.Model.{InitRequest, validate, validate_iff, IsSingle, IsMultipart}
use rust_api.Fs.{ok}
use rust_api.Fs.Upload.{UploadSession, expected_len}
use native.Mathlib.Nat.{mul-le-mul}

-- The session keeps the sizes of the request.
abbrev pub Follows : UploadSession → InitRequest → Type 0
Follows s r =
    (s.file_size ≡ r.file_size)
    × (s.part_size ≡ r.part_size)
    × (s.file_total_parts ≡ r.file_total_parts)

-- The sizes of the first `n` parts together.
pub total_len : UploadSession → ℕ → ℕ
total_len s zero = 0
total_len s (suc n) = total_len s n + expected_len s n

expected_inner :
    (s : UploadSession) (i : ℕ) → suc i < s.file_total_parts → expected_len s i ≡ s.part_size
unfolding expected_len
expected_inner s i h = ground arith

total_inner : (s : UploadSession) (n : ℕ) → n < s.file_total_parts → total_len s n ≡ s.part_size * n
unfolding total_len
total_inner s zero h = omega arith
total_inner s (suc n) h = omega (arith, total_inner s n (omega arith), expected_inner s n h)

expected_last :
    (s : UploadSession) (n : ℕ)
    → s.file_total_parts ≡ suc n
    → s.part_size * n ≤ s.file_size
    → s.part_size * n < 2 ^ 64
    → expected_len s n ≡ s.file_size - s.part_size * n
unfolding expected_len
expected_last s n e h k = ground arith

-- The shape that both sorts of valid request have.
IsCovered : UploadSession → Type 0
IsCovered s =
    (0 < s.file_total_parts)
    × (s.part_size * (s.file_total_parts - 1) < 2 ^ 64)
    × (s.part_size * (s.file_total_parts - 1) < s.file_size)
    × (s.file_size ≤ s.part_size * (s.file_total_parts - 1) + s.part_size)
    × (s.part_size ≤ 10485760)

pred_suc : (q : ℕ) → suc q - 1 ≡ q
pred_suc q = omega arith

product_pred : (t p : ℕ) → 0 < t → t * p ≡ (t - 1) * p + p
product_pred zero p h = absurd (omega arith)
product_pred (suc t) p h = rw (pred_suc t) (omega arith)

single-IsCovered : (s : UploadSession) (r : InitRequest) → Follows s r → IsSingle r → IsCovered s
unfolding IsCovered
single-IsCovered s r f h =
    let none_before : s.file_total_parts - 1 ≡ 0 = omega (arith, f.2, h.0) in
    rw none_before (
      omega (arith, f, h),
      omega arith,
      omega (arith, f, h),
      omega (arith, f, h),
      omega (arith, f, h),
    )

multipart-IsCovered :
    (s : UploadSession) (r : InitRequest) → Follows s r → IsMultipart r → IsCovered s
unfolding IsCovered
multipart-IsCovered s r f (h0, h1, h2, h3, h4, h5, h6) =
    let bound : (r.file_total_parts - 1) * r.part_size ≤ 10000 * 524288 =
      mul-le-mul {n₂ = 10000} (omega (arith, h1)) h4 in
    let last = product_pred r.file_total_parts r.part_size (omega (arith, h0)) in
    rw (f.0, f.1, f.2)
      (
        omega (arith, h0),
        omega (arith, bound),
        omega (arith, h5),
        omega (arith, h6, last),
        omega (arith, h4),
      )

valid-IsCovered :
    (s : UploadSession) (r : InitRequest) → Follows s r → validate r ≡ ok tt → IsCovered s
valid-IsCovered s r f v = elim ((validate_iff r).0 v) [
  | inl h ↦ single-IsCovered s r f h
  | inr h ↦ multipart-IsCovered s r f h
]

covered_total :
    (s : UploadSession) (n : ℕ)
    → s.file_total_parts ≡ suc n
    → IsCovered s
    → total_len s (suc n) ≡ s.file_size
unfolding IsCovered total_len
covered_total s n e (h0, h1, h2, h3, h4) =
    let pred : s.file_total_parts - 1 ≡ n = omega (arith, e) in
    let below : s.part_size * n < s.file_size =
      subst (λ x. s.part_size * x < s.file_size) pred h2 in
    let fits : s.part_size * n < 2 ^ 64 = subst (λ x. s.part_size * x < 2 ^ 64) pred h1 in
    omega (
      arith,
      below,
      total_inner s n (omega (arith, e)),
      expected_last s n e (omega (arith, below)) fits,
    )

-- The parts of a session that follows a valid request are together as long as the file.
pub total_len_valid :
    (s : UploadSession) (r : InitRequest)
    → Follows s r
    → validate r ≡ ok tt
    → total_len s s.file_total_parts ≡ s.file_size
unfolding IsCovered
total_len_valid s r f v =
    let c = valid-IsCovered s r f v in
    let e : s.file_total_parts ≡ suc (s.file_total_parts - 1) = omega (arith, c.0) in
    ap (total_len s) e ∙ covered_total s (s.file_total_parts - 1) e c

inner_or_last : (i n : ℕ) → i < n → (suc i < n) ⊎ (i ≡ n - 1)
inner_or_last i n h = omega arith

-- Where a session follows a valid request, each of its parts has at least one byte, is no longer
-- than `part_size` and at most 10 MB.
pub expected_len_valid :
    (s : UploadSession) (r : InitRequest) (i : ℕ)
    → Follows s r
    → validate r ≡ ok tt
    → i < s.file_total_parts
    → (0 < expected_len s i) × (expected_len s i ≤ s.part_size) × (expected_len s i ≤ 10485760)
unfolding IsCovered
expected_len_valid s r i f v l =
    let (h0, h1, h2, h3, h4) = valid-IsCovered s r f v in
    let filled : 0 < s.part_size = omega (arith, h2, h3) in
    elim (inner_or_last i s.file_total_parts l) [
      | inl e ↦
          let same = expected_inner s i e in
          (omega (arith, same, filled), omega (arith, same), omega (arith, same, h4))
      | inr e ↦
          let same =
            expected_last s (s.file_total_parts - 1) (omega (arith, h0)) (omega (arith, h2)) h1 in
          rw e (omega (arith, same, h2), omega (arith, same, h3), omega (arith, same, h3, h4))
    ]
