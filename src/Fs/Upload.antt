-- ===== src/Fs/Upload.antt =====
-- fs/mod.rs and fs/store.rs: what `upload_part` takes in of one part, up to the call of the object
-- store.
pub mod Parts
use rust_api.Prelude.{
  length-append, ℕ, zero, suc, ◌+◌, ◌-◌, ◌*◌, ◌/◌, ◌%◌, ◌^◌, ◌≤◌, ◌<◌, String, ◌≡◌, refl, sym, ap,
  ◌∙◌, subst, ◌≢◌, ◌↔◌, ◌⊎◌, inl, inr, Bool, true, false, not, ◌&&◌, ◌||◌, Option, none, some, List,
  [], ◌∷◌, ◌++◌, map, arith, str_eq, eq_iff, ltb, leb, ◌==◌, if◌then◌else◌, Bool-cases,
  Option-cases, length, take, All, count, ℤ, pos, negsuc, ltb_ℤ, leb_ℤ, ◌≤ℤ◌, ◌<ℤ◌, ◌-ℤ◌,
}
use mathlib.Core.List.{append_assoc, append-nil}
use rust_api.Fs.{Result, ok, err, bad_request, payload_too_large, forbidden, not_found, FsError}

pub record UploadSession : Type 0 where
  pub id : String
  pub file_size : ℕ
  pub part_size : ℕ
  pub file_total_parts : ℕ
  pub s3_upload_id : Option String
  pub s3_key : String
  pub owner_sub : String
  pub created_at : ℤ
  pub etags : List (Option String)
  pub checksums : List (Option String)

abbrev pub Chunk : Type 0
Chunk = List ℕ

-- `u64` subtraction, which wraps.
sub_u64 : ℕ → ℕ → ℕ
sub_u64 a b = if leb b a then a - b else 2 ^ 64 - (b - a)

-- The size of the part at an index below the number of parts.
unfoldable pub expected_len : UploadSession → ℕ → ℕ
unfolding sub_u64
expected_len s i =
    if i == s.file_total_parts - 1
    then sub_u64 s.file_size (s.part_size * i % 2 ^ 64)
    else s.part_size

pub is_short_last_part : UploadSession → ℕ → Bool
unfolding expected_len
is_short_last_part s i =
    ltb 1 s.file_total_parts && (i == s.file_total_parts - 1 && ltb (expected_len s i) s.part_size)

-- The answer to a part that is too long.
pub too_long : Bool → FsError
too_long true = bad_request "The last part is padded"
too_long false = payload_too_large

-- The declared length, if there is one, against the expected one.
check_declared : Bool → ℕ → Option ℕ → Option FsError
unfolding too_long
check_declared short expected none = none
check_declared short expected (some n) =
    if ltb expected n
    then some (too_long short)
    else if n == expected
    then none
    else some (bad_request "declared part size does not match expected bytes")

-- The loop over the chunks of the body: `buf` has been read, and is `total` bytes long. No chunk is
-- looked at after the one that makes the part too long.
pub intake : Bool → ℕ → ℕ → List ℕ → List (Result Chunk) → Result (List ℕ)
unfolding too_long
intake short expected total buf [] =
    if total == expected then ok buf else err (bad_request "blob size mismatch")
intake short expected total buf (err e ∷ rest) = err e
intake short expected total buf (ok chunk ∷ rest) =
    let later = intake short expected (total + length chunk) (buf ++ chunk) rest in
    if ltb expected (total + length chunk) then err (too_long short) else later

-- The guards before the body is read.
receive_session : UploadSession → String → ℕ → Option ℕ → List (Result Chunk) → Result (List ℕ)
unfolding expected_len is_short_last_part check_declared intake
receive_session s caller_sub i declared_len body =
    if not (str_eq s.owner_sub caller_sub)
    then err forbidden
    else if leb s.file_total_parts i
    then err (bad_request "part index out of bounds")
    else elim (check_declared (is_short_last_part s i) (expected_len s i) declared_len) [
      | some e ↦ err e
      | none ↦ intake (is_short_last_part s i) (expected_len s i) 0 [] body
    ]

-- `upload_part`, up to the object store: the bytes that it would store.
unfoldable pub receive :
    Option UploadSession → String → ℕ → Option ℕ → List (Result Chunk) → Result (List ℕ)
unfolding receive_session
receive none caller_sub i declared_len body = err (not_found "upload session not found")
receive (some s) caller_sub i declared_len body = receive_session s caller_sub i declared_len body

-- The whole body, if no chunk of it failed.
pub joined : List (Result Chunk) → Option (List ℕ)
joined [] = some []
joined (err e ∷ rest) = none
joined (ok chunk ∷ rest) = elim (joined rest) [ none ↦ none | some b ↦ some (chunk ++ b) ]

intake_complete :
    (short : Bool) (expected : ℕ) (stream : List (Result Chunk)) (total : ℕ) (buf rest : List ℕ)
    → joined stream ≡ some rest
    → total + length rest ≡ expected
    → intake short expected total buf stream ≡ ok (buf ++ rest)
unfolding intake joined
intake_complete short expected [] total buf rest e l = ground (arith, append-nil buf, e, l)
intake_complete short expected (err x ∷ stream) total buf rest e l = absurd (cc)
intake_complete short expected (ok chunk ∷ stream) total buf rest e l =
    elim (Option-cases (joined stream)) [
      | inl n ↦ absurd (cc)
      | inr (b, q) ↦ ground (
        arith,
        q,
        e,
        length-append chunk b,
        append_assoc buf chunk b,
        intake_complete short expected stream (total + length chunk) (buf ++ chunk) b q,
      )
    ]

intake_goes_on :
    (short : Bool) (expected : ℕ) (stream : List (Result Chunk)) (chunk : Chunk) (total : ℕ)
    (buf body : List ℕ)
    → intake short expected total buf (ok chunk ∷ stream) ≡ ok body
    → intake short expected (total + length chunk) (buf ++ chunk) stream ≡ ok body
unfolding intake
intake_goes_on short expected stream chunk total buf body e = ground (arith, e)

intake_sound :
    (short : Bool) (expected : ℕ) (stream : List (Result Chunk)) (total : ℕ) (buf body : List ℕ)
    → intake short expected total buf stream ≡ ok body
    → (rest : List ℕ) × (joined stream ≡ some rest)
      × (total + length rest ≡ expected)
      × (buf ++ rest ≡ body)
unfolding intake joined
intake_sound short expected [] total buf body e =
    ([], refl, ground arith, ground (arith, append-nil buf))
intake_sound short expected (err x ∷ stream) total buf body e = absurd (cc)
intake_sound short expected (ok chunk ∷ stream) total buf body e =
    let small = intake_goes_on short expected stream chunk total buf body e in
    let (rest, q, l, b) =
      intake_sound short expected stream (total + length chunk) (buf ++ chunk) body small in
    (
      chunk ++ rest,
      rw q,
      ground (arith, length-append chunk rest),
      sym (append_assoc buf chunk rest) ∙ b,
    )

intake_iff :
    (short : Bool) (expected : ℕ) (stream : List (Result Chunk)) (body : List ℕ)
    → (intake short expected 0 [] stream ≡ ok body)
      ↔ ((joined stream ≡ some body) × (length body ≡ expected))
intake_iff short expected stream body = (
  λ h.
      let (rest, q, l, b) = intake_sound short expected stream 0 [] body h in
      (q ∙ ap some b, omega (arith, l, ap length b)),
  λ h. intake_complete short expected stream 0 [] body h.0 (omega (arith, h.1)),
)

check_declared_iff :
    (short : Bool) (expected : ℕ) (d : Option ℕ)
    → (check_declared short expected d ≡ none) ↔ ((d ≡ none) ⊎ (d ≡ some expected))
unfolding check_declared
check_declared_iff short expected none = (λ h. inl refl, λ h. refl)
check_declared_iff short expected (some n) = (λ h. ground arith, λ h. ground arith)

-- A part is taken in exactly if the caller owns the session, the index is one of its parts, the
-- declared length, if any, is the expected one, and no chunk fails and the chunks together are of
-- the expected length; what is taken in is then the chunks joined.
pub receive_iff :
    (s : UploadSession) (caller_sub : String) (i : ℕ) (declared_len : Option ℕ)
    (stream : List (Result Chunk)) (body : List ℕ)
    → (receive (some s) caller_sub i declared_len stream ≡ ok body) ↔ (
        (s.owner_sub ≡ caller_sub)
        × (i < s.file_total_parts)
        × ((declared_len ≡ none) ⊎ (declared_len ≡ some (expected_len s i)))
        × (joined stream ≡ some body)
        × (length body ≡ expected_len s i))
unfolding receive receive_session
receive_iff s caller_sub i declared_len stream body = ground (
  arith,
  eq_iff s.owner_sub caller_sub,
  check_declared_iff (is_short_last_part s i) (expected_len s i) declared_len,
  intake_iff (is_short_last_part s i) (expected_len s i) stream body,
)
