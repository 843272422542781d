-- ===== src/Fs/Engine/Uploads.antt =====
-- fs/mod.rs: upload sessions, from their creation through the parts to the file record or the
-- cancellation. A part is taken in by two halves, the second under the lock of the session.

use rust_api.Prelude.Maps.{insert}
use rust_api.Fs.Model.{validate, InitRequest}
use rust_api.Fs.{forbidden, bad_request, not_found, internal, ok, Result}
use rust_api.Fs.Upload.{Chunk, receive, UploadSession}
use rust_api.Prelude.{
  leb, str_eq, ◌==◌, not, if◌then◌else◌, ◌+◌, none, zero, length, [], some, suc, ℤ, ◌∷◌, Option, ℕ,
  String, List,
}
use rust_api.Fs.Engine.{
  answer, fail, on_objects, E, save_multipart, load_multipart, get_session, save_session,
}
use rust_api.Fs.Objects.{PersistedMultipart, S3Client}
use Prim.Native.String.{◌++◌ as ◌++ˢ◌}
use rust_api.Fs.Store.{◌>>=◌, ◌>>◌, pure}

-- A slot for each part.
abbrev pub part_slots : ℕ → List (Option String)
part_slots zero = []
part_slots (suc n) = none ∷ part_slots n

abbrev pub set {ℓ} : {A : Type ℓ} → List A → ℕ → A → List A
set [] i v = []
set (x ∷ xs) zero v = v ∷ xs
set (x ∷ xs) (suc i) v = x ∷ set xs i v

-- `resize(n, None)`
unfoldable pub resize : ℕ → List (Option String) → List (Option String)
resize zero xs = []
resize (suc n) [] = none ∷ resize n []
resize (suc n) (x ∷ xs) = x ∷ resize n xs

unfoldable pub merged : ℕ → String → Option String → UploadSession → UploadSession
unfolding resize
merged slot etag checksum s = record s {
  etags = set s.etags slot (some etag);
  checksums = set (resize (length s.etags) s.checksums) slot checksum;
}

-- What the first half of `upload_part` hands to the second.
pub record Staged : Type 0 where
  pub file_id : String
  pub slot : ℕ
  pub upload_id : Option String
  pub etag : String
  pub checksum : Option String
  pub caller : String

module _ {S : Type 0} where
  unfoldable pub merge_parts : ℕ → String → Option PersistedMultipart → E S (Unit {0})
  unfolding save_multipart insert
  merge_parts slot etag none = pure tt
  merge_parts slot etag (some m) = save_multipart (record m { parts = insert slot etag m.parts })

  unfoldable pub merge_record : ℕ → String → Option String → E S (Unit {0})
  unfolding load_multipart merge_parts
  merge_record slot etag none = pure tt
  merge_record slot etag (some upload_id) = do
    found ← load_multipart upload_id
    merge_parts slot etag found

  unfoldable pub merge_found : Staged → Option UploadSession → E S (Unit {0})
  unfolding merge_record save_session merged
  merge_found p none = fail (not_found "upload session not found")
  merge_found p (some s) =
      if not (str_eq s.owner_sub p.caller)
      then fail forbidden
      else if leb (length s.etags) p.slot
      then fail (bad_request "part index out of bounds")
      else (do
        merge_record p.slot p.etag p.upload_id
        save_session (merged p.slot p.etag p.checksum s))

  -- The second half, under the lock.
  unfoldable pub merge_part : Staged → E S (Unit {0})
  unfolding get_session merge_found
  merge_part p = do found ← get_session p.file_id; merge_found p found

-- The key of a file's bytes.
unfoldable pub object_key : String → String
object_key id = "files/" ++ˢ id

-- `init_upload`: `id` is the new uuid, `now` the time; the slots are always allocated.
unfoldable pub new_session : InitRequest → String → ℤ → String → Option String → UploadSession
unfolding object_key
new_session req id now owner upload_id = record {
  id = id;
  file_size = req.file_size;
  part_size = req.part_size;
  file_total_parts = req.file_total_parts;
  s3_upload_id = upload_id;
  s3_key = object_key id;
  owner_sub = owner;
  created_at = now;
  etags = part_slots req.file_total_parts;
  checksums = part_slots req.file_total_parts;
}

-- The multipart record at its start.
unfoldable pub new_multipart : String → UploadSession → String → String → PersistedMultipart
new_multipart bucket s u b = record {
  upload_id = u;
  bucket = bucket;
  key = s.s3_key;
  s3_upload_id = b;
  parts = [];
  created_at = s.created_at;
}

unfoldable pub backend_id : {S : Type 0} → Option String → E S String
backend_id none = fail (internal "multipart created but backend id missing")
backend_id (some b) = pure b

module _ {S : Type 0} (s3 : S3Client S) where
  open s3 use {
    create_multipart_upload, upload_part, complete_multipart_upload, abort_multipart_upload,
    backend_upload_id, restore_multipart, put_object, delete_object,
  }

  unfoldable pub restore : Option PersistedMultipart → E S (Unit {0})
  unfolding on_objects
  restore none = fail (bad_request "multipart state unavailable; start a new upload")
  restore (some m) = on_objects (restore_multipart m)

  unfoldable pub ensure_multipart : String → E S (Unit {0})
  unfolding load_multipart restore
  ensure_multipart upload_id = do found ← load_multipart upload_id; restore found

  unfoldable pub stage_multipart : UploadSession → Option String → Staged → ℕ → List ℕ → E S Staged
  unfolding ensure_multipart on_objects
  stage_multipart s none p i bytes = fail (internal "missing s3 upload id")
  stage_multipart s (some upload_id) p i bytes = do
    ensure_multipart upload_id
    etag ← on_objects (upload_part s.s3_key upload_id (i + 1) bytes p.checksum)
    pure (record p { upload_id = some upload_id; etag = etag })

  unfoldable pub stage_bytes : UploadSession → Staged → ℕ → List ℕ → E S Staged
  unfolding on_objects stage_multipart
  stage_bytes s p i bytes =
      if s.file_total_parts == 1
      then (do on_objects (put_object s.s3_key bytes p.checksum); pure p)
      else stage_multipart s s.s3_upload_id p i bytes

  unfoldable pub stage_found :
      Staged → ℕ → Option ℕ → List (Result Chunk) → Option UploadSession → E S Staged
  unfolding receive stage_bytes
  stage_found p i declared body none = fail (not_found "upload session not found")
  stage_found p i declared body (some s) = do
    bytes ← answer (receive (some s) p.caller i declared body)
    stage_bytes s p i bytes

  -- The first half, up to `merge_part`: the bytes are read, checked and handed to the storage.
  unfoldable pub stage_part :
      String → ℕ → List (Result Chunk) → Option ℕ → Option String → String → E S Staged
  unfolding get_session stage_found
  stage_part id i body declared checksum caller = do
    found ← get_session id
    stage_found
        (record {
          file_id = id;
          slot = i;
          upload_id = none;
          etag = "put";
          checksum = checksum;
          caller = caller;
        })
        i declared body found

  -- `upload_part`, with nothing between its halves.
  unfoldable pub upload :
      String → ℕ → List (Result Chunk) → Option ℕ → Option String → String → E S (Unit {0})
  unfolding stage_part merge_part
  upload id i body declared checksum caller = do
    p ← stage_part id i body declared checksum caller
    merge_part p

  unfoldable pub create_if : ℕ → String → E S (Option String)
  unfolding on_objects object_key
  create_if parts id =
      if parts == 1
      then pure none
      else (do u ← on_objects (create_multipart_upload (object_key id)); pure (some u))

  unfoldable pub record_upload : String → UploadSession → Option String → E S (Unit {0})
  unfolding on_objects backend_id save_multipart new_multipart
  record_upload bucket s none = pure tt
  record_upload bucket s (some u) = do
    found ← on_objects (λ t. (ok (backend_upload_id u t).0, (backend_upload_id u t).1))
    b ← backend_id found
    save_multipart (new_multipart bucket s u b)

  unfoldable pub init_upload : String → InitRequest → String → ℤ → String → E S String
  unfolding validate create_if save_session new_session record_upload
  init_upload bucket req id now owner = do
    answer (validate req)
    u ← create_if req.file_total_parts id
    save_session (new_session req id now owner u)
    record_upload bucket (new_session req id now owner u) u
    pure id
