-- ===== src/Fs/Tests.antt =====
-- Runs of the upload code on one small upload.
use rust_api.Prelude.{
  ℕ, ◌≤◌, ◌<◌, ◌≡◌, refl, ◌↔◌, ◌⊎◌, Option, none, some, List, [], ◌∷◌, arith, length, pos,
}
use rust_api.Fs.Model.{InitRequest, validate, validate_iff, IsSingle, IsMultipart}
use rust_api.Fs.{ok}
use rust_api.Fs.Upload.{UploadSession, expected_len, receive, receive_iff, joined}
use rust_api.Fs.Upload.Parts.{expected_len_valid}

-- 2500 bytes in parts of 1024.
abbrev request : InitRequest
request = record { file_size = 2500; part_size = 1024; file_total_parts = 3 }

request_valid : validate request ≡ ok tt
unfolding validate
request_valid = refl

abbrev session : UploadSession
session = record {
  id = "f";
  file_size = 2500;
  part_size = 1024;
  file_total_parts = 3;
  s3_upload_id = some "u";
  s3_key = "k";
  owner_sub = "ann";
  created_at = pos 0;
  etags = none ∷ none ∷ none ∷ [];
  checksums = none ∷ none ∷ none ∷ [];
}

-- A session of three bytes.
abbrev tiny : UploadSession
tiny = record session { file_size = 3; part_size = 3; file_total_parts = 1 }

abbrev bytes : List ℕ
bytes = 1 ∷ 2 ∷ 3 ∷ []

abbrev declared : Option ℕ
declared = some 3

last_len : expected_len session 2 ≡ 452
unfolding expected_len
last_len = refl

receive-tiny : receive (some tiny) "ann" 0 declared (ok (1 ∷ 2 ∷ []) ∷ ok (3 ∷ []) ∷ []) ≡ ok bytes
unfolding receive
receive-tiny = refl

receive_iff_example :
    (receive (some tiny) "ann" 0 declared (ok (1 ∷ 2 ∷ []) ∷ ok (3 ∷ []) ∷ []) ≡ ok bytes) ↔ (
      (tiny.owner_sub ≡ "ann")
      × (0 < tiny.file_total_parts)
      × ((declared ≡ none) ⊎ (declared ≡ some (expected_len tiny 0)))
      × (joined (ok (1 ∷ 2 ∷ []) ∷ ok (3 ∷ []) ∷ []) ≡ some bytes)
      × (length bytes ≡ expected_len tiny 0))
receive_iff_example = receive_iff tiny "ann" 0 declared (ok (1 ∷ 2 ∷ []) ∷ ok (3 ∷ []) ∷ []) bytes

validate_iff_example : (validate request ≡ ok tt) ↔ (IsSingle request ⊎ IsMultipart request)
validate_iff_example = validate_iff request

expected_len_valid_example :
    (0 < expected_len session 2)
    × (expected_len session 2 ≤ 1024)
    × (expected_len session 2 ≤ 10485760)
expected_len_valid_example =
    expected_len_valid session request 2 (refl, refl, refl) request_valid (omega arith)

-- A file of ten bytes of `ann`, and a policy that grants the row `doc`.
