-- ===== src/Fs/Engine/Complete.antt =====
-- fs/mod.rs: the completion and the cancellation of an upload.
use rust_api.Records.{file_create, FileRecord}
use rust_api.Fs.{forbidden, bad_request, err, not_found, internal, ok, Result}
use rust_api.Fs.Upload.{UploadSession}
use rust_api.Prelude.{
  str_eq, not, ◌==◌, if◌then◌else◌, true, none, false, [], some, Bool, ℤ, ◌∷◌, Option, String, List,
}
use rust_api.Fs.Engine.{
  delete_multipart, fail, find_file, save_file, on_objects, E, delete_session, announce,
  load_multipart, get_session,
}
use rust_api.Fs.Objects.{PersistedMultipart, S3Client}
use rust_api.Fs.Store.{◌>>=◌, ◌>>◌, pure}
use rust_api.Fs.Engine.Uploads.{ensure_multipart}

-- Whether some part is not there.
unfoldable pub any_missing : List (Option String) → Bool
any_missing [] = false
any_missing (none ∷ es) = true
any_missing (some e ∷ es) = any_missing es

-- The loop that clones the etags.
unfoldable pub clone_etags : List (Option String) → Option (List String)
clone_etags [] = some []
clone_etags (none ∷ es) = none
clone_etags (some e ∷ es) = elim (clone_etags es) [ none ↦ none | some xs ↦ some (e ∷ xs) ]

-- The only part of a single-part upload; without a slot the code would panic.
unfoldable pub first_there : {S : Type 0} → List (Option String) → E S (Unit {0})
first_there [] = fail (internal "index out of bounds")
first_there (none ∷ es) = fail (bad_request "missing part for single-part upload")
first_there (some e ∷ es) = pure tt

pub record CompleteRequest : Type 0 where
  pub name : String
  pub mimetype : String

unfoldable pub new_record : String → CompleteRequest → ℤ → UploadSession → FileRecord
new_record id req now s = record {
  id = id;
  name = req.name;
  mimetype = req.mimetype;
  size = s.file_size;
  s3_key = s.s3_key;
  owner_sub = s.owner_sub;
  created_at = now;
}

module _ {S : Type 0} where
  -- The record is committed, then announced, and then the session goes.
  unfoldable pub commit : String → FileRecord → E S (Unit {0})
  unfolding save_file announce delete_session
  commit id rec = do save_file rec; announce (file_create rec); delete_session id

  -- The record is there: what is left is to announce it, if the session is there too.
  unfoldable pub announce_again : String → FileRecord → Option UploadSession → E S (Unit {0})
  unfolding announce delete_session
  announce_again id rec none = pure tt
  announce_again id rec (some s) = do announce (file_create rec); delete_session id

module _ {S : Type 0} (s3 : S3Client S) where
  open s3 use {
    create_multipart_upload, upload_part, complete_multipart_upload, abort_multipart_upload,
    backend_upload_id, restore_multipart, put_object, delete_object,
  }

  -- `abort_session_upload`, the part of a session with a multipart upload: one that is gone already is no
  -- failure.
  unfoldable pub gone_is_done : Result (Unit {0}) → Result (Unit {0})
  gone_is_done (ok t) = ok tt
  gone_is_done (err (not_found d)) = ok tt
  gone_is_done (err e) = err e

  unfoldable pub abort_found : UploadSession → String → Option PersistedMultipart → E S (Unit {0})
  unfolding ensure_multipart on_objects gone_is_done
  abort_found s upload_id none = pure tt
  abort_found s upload_id (some m) = do
    ensure_multipart s3 upload_id
    on_objects (λ t. (
      gone_is_done (abort_multipart_upload s.s3_key upload_id t).0,
      (abort_multipart_upload s.s3_key upload_id t).1,
    ))

  unfoldable pub abort_upload : UploadSession → Option String → E S (Unit {0})
  unfolding on_objects load_multipart abort_found
  abort_upload s none = on_objects (delete_object s.s3_key)
  abort_upload s (some upload_id) = do
    found ← load_multipart upload_id
    abort_found s upload_id found

  unfoldable pub abort_session_upload : UploadSession → E S (Unit {0})
  unfolding abort_upload
  abort_session_upload s = abort_upload s s.s3_upload_id

  -- The parts become one object.
  unfoldable pub finish_multipart :
      UploadSession → Option (List String) → Option String → E S (Unit {0})
  unfolding ensure_multipart on_objects delete_multipart
  finish_multipart s none u = fail (internal "missing etag for part")
  finish_multipart s (some etags) none = fail (internal "missing s3 upload id")
  finish_multipart s (some etags) (some upload_id) = do
    ensure_multipart s3 upload_id
    on_objects (complete_multipart_upload s.s3_key upload_id etags)
    delete_multipart upload_id

  unfoldable pub finish_bytes : UploadSession → E S (Unit {0})
  unfolding first_there finish_multipart clone_etags
  finish_bytes s =
      if s.file_total_parts == 1
      then first_there s.etags
      else finish_multipart s (clone_etags s.etags) s.s3_upload_id

  unfoldable pub complete_session :
      String → CompleteRequest → ℤ → String → UploadSession → E S (Unit {0})
  unfolding any_missing finish_bytes commit new_record
  complete_session id req now caller s =
      if not (str_eq s.owner_sub caller)
      then fail forbidden
      else if any_missing s.etags
      then fail (bad_request "not all parts uploaded")
      else (do finish_bytes s; commit id (new_record id req now s))

  unfoldable pub complete_found :
      String
      → CompleteRequest
      → ℤ
      → String
      → Option FileRecord
      → Option UploadSession
      → E S (Unit {0})
  unfolding announce_again complete_session
  complete_found id req now caller (some rec) session =
      if not (str_eq rec.owner_sub caller) then fail forbidden else announce_again id rec session
  complete_found id req now caller none none = fail (not_found "upload session not found")
  complete_found id req now caller none (some s) = complete_session id req now caller s

  unfoldable pub complete_upload : String → CompleteRequest → ℤ → String → E S (Unit {0})
  unfolding find_file get_session complete_found
  complete_upload id req now caller = do
    committed ← find_file id
    session ← get_session id
    complete_found id req now caller committed session

  unfoldable pub cancel_multipart : UploadSession → Option String → E S (Unit {0})
  unfolding abort_session_upload
  cancel_multipart s none = pure tt
  cancel_multipart s (some u) = abort_session_upload s

  unfoldable pub cancel_found : String → String → Option UploadSession → E S (Unit {0})
  unfolding cancel_multipart delete_session
  cancel_found id caller none = fail (not_found "upload session not found")
  cancel_found id caller (some s) =
      if not (str_eq s.owner_sub caller)
      then fail forbidden
      else (do cancel_multipart s s.s3_upload_id; delete_session id)

  unfoldable pub cancel_upload : String → String → E S (Unit {0})
  unfolding get_session cancel_found
  cancel_upload id caller = do session ← get_session id; cancel_found id caller session
