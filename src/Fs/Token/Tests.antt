-- ===== src/Fs/Token/Tests.antt =====
-- Runs of the token code on a library whose tokens are the claims with the secret.
use rust_api.Prelude.{ℕ, zero, suc, ◌≡◌, refl, none, some, List, [], ◌∷◌, if◌then◌else◌, pos}
use rust_api.Fs.{ok}
use rust_api.Fs.Token.{FsClaims, Secret, TokenLibrary, verify}
use rust_api.Sync.Keys.{key_eq}

abbrev plain : TokenLibrary
plain = record {
  Token = Secret × FsClaims;
  encode = λ kid k c. some (k, c);
  decode = λ t k token. if key_eq k token.0 then some token.1 else none;
}

abbrev claims : FsClaims
claims = record { sub = "ann"; file_id = "f"; act = "read"; exp = 300 }

abbrev key : Secret
key = 7 ∷ []

verified : verify plain (key, claims) "f" "read" ((1 ∷ []) ∷ key ∷ []) (pos 9) (pos 9) ≡ ok claims
unfolding verify key_eq
verified = refl

-- Thirty-two times "0A".
abbrev zero_tens : ℕ → List ℕ
zero_tens zero = []
zero_tens (suc n) = b'0' ∷ b'A' ∷ zero_tens n

abbrev tens : ℕ → List ℕ
tens zero = []
tens (suc n) = 10 ∷ tens n
