-- ===== src/Fs/Token.antt =====
-- fs/token.rs: the capability tokens of a file, over a token library (crate `jsonwebtoken`).
mod Tests
use rust_api.Prelude.{
  ==_iff, ℕ, zero, suc, ◌+◌, ◌-◌, ◌*◌, ◌%◌, ◌^◌, ◌≤◌, String, ◌≡◌, refl, sym, ap, ◌∙◌, ◌⊎◌, inl,
  inr, Bool, true, false, not, ◌&&◌, ◌||◌, Option, none, some, List, [], ◌∷◌, arith, str_eq, eq_iff,
  ltb, leb, ◌==◌, if◌then◌else◌, Option-cases, length, ℤ, pos, negsuc,
}
use rust_api.Fs.{Result, ok, err, forbidden, internal}

pub record FsClaims : Type 0 where
  pub sub : String
  pub file_id : String
  pub act : String
  pub exp : ℕ

abbrev pub Secret : Type 0
Secret = List ℕ

-- What the tokens rely on. `encode` signs claims with the key id and the secret. `decode` checks the
-- signature, and the expiry by its own reading of the clock.
pub record TokenLibrary : Type 1 where
  pub Token : Type 0
  pub encode : String → Secret → FsClaims → Option Token
  pub decode : ℤ → Secret → Token → Option FsClaims

-- A `u64` from an `i64` by `as`.
pub as_u64 : ℤ → ℕ
as_u64 (pos n) = n % 2 ^ 64
as_u64 (negsuc n) = 2 ^ 64 - 1 - n % 2 ^ 64

default_ttl_secs : ℕ
default_ttl_secs = 300

ttl_or_default : Option ℕ → ℕ
unfolding default_ttl_secs
ttl_or_default none = default_ttl_secs
ttl_or_default (some t) = t

is_hexdigit : ℕ → Bool
is_hexdigit b =
    (leb b'0' b && leb b b'9') || ((leb b'a' b && leb b b'f') || (leb b'A' b && leb b b'F'))

all_hexdigit : List ℕ → Bool
unfolding is_hexdigit
all_hexdigit [] = true
all_hexdigit (b ∷ bs) = is_hexdigit b && all_hexdigit bs

-- The value of a hexadecimal digit.
hex_value : ℕ → ℕ
hex_value b = if leb b b'9' then b - b'0' else if leb b b'F' then b - b'A' + 10 else b - b'a' + 10

-- Two digits to a byte.
hex_bytes : List ℕ → List ℕ
unfolding hex_value
hex_bytes [] = []
hex_bytes (a ∷ []) = []
hex_bytes (a ∷ b ∷ bs) = (16 * hex_value a + hex_value b) ∷ hex_bytes bs

-- `parse_secret_hex`, of the bytes of a string: `none` for the error.
unfoldable pub parse_secret_hex : List ℕ → Option Secret
unfolding all_hexdigit hex_bytes
parse_secret_hex s =
    if not (length s == 64) || not (all_hexdigit s) then none else some (hex_bytes s)

module _ (o : TokenLibrary) where
  open o use {Token, encode, decode}

  encoded : Option Token → Result Token
  encoded none = err (internal "encode")
  encoded (some t) = ok t

  -- The claims that `mint` signs.
  pub minted : String → String → String → Option ℕ → ℤ → FsClaims
  unfolding as_u64 ttl_or_default
  minted sub file_id act ttl_secs now = record {
    sub = sub;
    file_id = file_id;
    act = act;
    exp = (as_u64 now + ttl_or_default ttl_secs) % 2 ^ 64;
  }

  pub mint : String → String → String → String → Secret → Option ℕ → ℤ → Result Token
  unfolding minted encoded
  mint sub file_id act kid secret ttl_secs now =
      encoded (encode kid secret (minted sub file_id act ttl_secs now))

  -- The checks of claims that a secret decodes.
  check_claims : String → String → ℤ → FsClaims → Result FsClaims
  unfolding as_u64
  check_claims file_id act now c =
      if ltb c.exp (as_u64 now)
      then err forbidden
      else if not (str_eq c.file_id file_id) || not (str_eq c.act act)
      then err forbidden
      else ok c

  -- The loop over the secrets: the first that decodes the token decides.
  unfoldable pub verify : Token → String → String → List Secret → ℤ → ℤ → Result FsClaims
  unfolding check_claims
  verify token file_id act [] decoded_at now = err forbidden
  verify token file_id act (secret ∷ secrets) decoded_at now =
      elim (decode decoded_at secret token) [
        | none ↦ verify token file_id act secrets decoded_at now
        | some c ↦ check_claims file_id act now c
      ]

  -- Some secret decodes the token to the claims.
  abbrev pub DecodedBy : List Secret → ℤ → Token → FsClaims → Type 0
  DecodedBy [] t token c = ⊥
  DecodedBy (secret ∷ secrets) t token c =
      (decode t secret token ≡ some c) ⊎ DecodedBy secrets t token c

  check_claims_sound :
      (file_id act : String) (now : ℤ) (d c : FsClaims)
      → check_claims file_id act now d ≡ ok c
      → (d ≡ c) × (c.file_id ≡ file_id) × (c.act ≡ act) × (as_u64 now ≤ c.exp)
  unfolding check_claims
  check_claims_sound file_id act now d c h =
      let same : d ≡ c = ground (arith, h) in
      (
        same,
        ground (arith, h, same, eq_iff d.file_id file_id),
        ground (arith, h, same, eq_iff d.act act),
        ground (arith, h, same),
      )

  -- Whatever token is accepted for a file and an action: one of the secrets decodes it to claims of
  -- this file and this action that have not expired.
  pub verify_sound :
      (token : Token) (file_id act : String) (secrets : List Secret) (decoded_at now : ℤ)
      (c : FsClaims)
      → verify token file_id act secrets decoded_at now ≡ ok c
      → DecodedBy secrets decoded_at token c
        × (c.file_id ≡ file_id)
        × (c.act ≡ act)
        × (as_u64 now ≤ c.exp)
  unfolding verify
  verify_sound token file_id act [] decoded_at now c h = absurd (cc)
  verify_sound token file_id act (secret ∷ secrets) decoded_at now c h =
      elim (Option-cases (decode decoded_at secret token)) [
        | inl n ↦
            let (by, x, y, z) =
              verify_sound token file_id act secrets decoded_at now c (rw (n, verify) at h) in
            (inr by, x, y, z)
        | inr (d, e) ↦
            let (same, x, y, z) = check_claims_sound file_id act now d c (rw (e, verify) at h) in
            (inl (e ∙ ap some same), x, y, z)
      ]

length-hex_bytes : (n : ℕ) (s : List ℕ) → length s ≡ 2 * n → length (hex_bytes s) ≡ n
unfolding hex_bytes
length-hex_bytes zero [] h = refl
length-hex_bytes (suc n) [] h = absurd (omega (arith, h))
length-hex_bytes n (a ∷ []) h = absurd (omega (arith, h))
length-hex_bytes zero (a ∷ b ∷ s) h = absurd (omega (arith, h))
length-hex_bytes (suc n) (a ∷ b ∷ s) h = omega (arith, length-hex_bytes n s (omega (arith, h)))

both_passed :
    (b c : Bool) (v k : Secret)
    → (if not b || not c then none else some v) ≡ some k
    → (b ≡ true) × (v ≡ k)
both_passed true true v k h = (refl, cc)
both_passed true false v k h = absurd (cc)
both_passed false c v k h = absurd (cc)

-- A secret is parsed from 64 digits only, and has 32 bytes.
pub length-parse_secret_hex :
    (s : List ℕ) (k : Secret) → parse_secret_hex s ≡ some k → (length s ≡ 64) × (length k ≡ 32)
unfolding parse_secret_hex
length-parse_secret_hex s k h =
    let (long, same) = both_passed (length s == 64) (all_hexdigit s) (hex_bytes s) k h in
    let n : length s ≡ 64 = (==_iff (length s) 64).0 long in
    (n, sym (ap length same) ∙ length-hex_bytes 32 s (omega (arith, n)))
