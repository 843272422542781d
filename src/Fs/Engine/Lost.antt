-- ===== src/Fs/Engine/Lost.antt =====
-- fs/mod.rs and fs/gc.rs: what becomes of a committed file whose session outlived the commit, and of one
-- whose sweep stopped half way.
use rust_api.Fs.{ok}
use rust_api.Fs.Upload.{UploadSession}
use rust_api.Records.{FileRecord}
use rust_api.Fs.Engine.Sweep.{
  sweep_gone, is_expired, attempted, attempt, sweep_found, sweep_session,
}
use rust_api.Fs.Engine.Complete.{
  abort_upload, abort_session_upload, CompleteRequest, announce_again, cancel_multipart,
  cancel_found, complete_found, complete_upload, cancel_upload,
}
use rust_api.Fs.Objects.{IsStorage, S3Client}
use rust_api.Fs.Engine.{
  remove_multipart, upload_of, on_objects, call, delete_session, on_tables, find_file, get_session,
  World, remove_session, Rows,
}
use rust_api.Prelude.{ap, eq_iff, false, true, none, some, ◌≡◌, ℤ, [], String, refl}
use rust_api.Prelude.Maps.{lookup, lookup-remove}

-- An engine no call of which fails from here on.
abbrev pub calm : {S : Type 0} → Rows → S → World S
calm r t = record { rows = r; faults = []; objects = t }

module _ {S : Type 0} (s3 : S3Client S) where
  open s3 use {holds, delete_object}

  -- What the feed has when a cancellation and then a completion are answered.
  abbrev pub cancelled : String → String → Rows → S → World S
  cancelled id caller r t = (cancel_upload s3 id caller (calm r t)).1

  cancel_calm :
      (id caller : String) (s : UploadSession) (r : Rows) (t : S)
      → lookup id r.sessions ≡ some s
      → s.s3_upload_id ≡ none
      → s.owner_sub ≡ caller
      → cancel_upload s3 id caller (calm r t) ≡ (ok tt, calm (remove_session id (some s) r) t)
  unfolding cancel_upload cancel_found cancel_multipart get_session delete_session call
      remove_session upload_of remove_multipart
  cancel_calm id caller s r t e u o = rw (e, (eq_iff s.owner_sub caller).1 o, u, e, u) refl

  complete_calm :
      (id caller : String) (rec : FileRecord) (req : CompleteRequest) (now : ℤ) (r : Rows) (t : S)
      → lookup id r.tables.files ≡ some rec
      → lookup id r.sessions ≡ none
      → rec.owner_sub ≡ caller
      → complete_upload s3 id req now caller (calm r t) ≡ (ok tt, calm r t)
  unfolding complete_upload complete_found announce_again find_file get_session on_tables call
  complete_calm id caller rec req now r t f e o = rw (f, e, (eq_iff rec.owner_sub caller).1 o) refl

  -- Where a file is committed and its single-part session is still there, its owner's cancellation is
  -- answered, and so is a completion after it, but the feed is as it was.
  pub cancel-complete_unannounced :
      (id caller : String) (rec : FileRecord) (s : UploadSession) (req : CompleteRequest) (now : ℤ)
      (r : Rows) (t : S)
      → lookup id r.tables.files ≡ some rec
      → lookup id r.sessions ≡ some s
      → s.s3_upload_id ≡ none
      → rec.owner_sub ≡ caller
      → s.owner_sub ≡ caller
      → ((cancel_upload s3 id caller (calm r t)).0 ≡ ok tt)
        × ((complete_upload s3 id req now caller (cancelled id caller r t)).0 ≡ ok tt)
        × ((complete_upload s3 id req now caller (cancelled id caller r t)).1.rows.feed ≡ r.feed)
  unfolding remove_session complete_upload cancel_upload
  cancel-complete_unannounced id caller rec s req now r t f e u o o' =
      let c = cancel_calm id caller s r t e u o' in
      let gone : lookup id (remove_session id (some s) r).sessions ≡ none =
        rw (lookup-remove id id r.sessions, (eq_iff id id).1 refl) refl in
      let d = complete_calm id caller rec req now (remove_session id (some s) r) t f gone o in
      (ap (λ x. x.0) c, rw (c, d) refl, rw (c, d) refl)

  sweep_calm :
      (now : ℤ) (id : String) (s : UploadSession) (r : Rows) (t : S)
      → lookup id r.sessions ≡ some s
      → is_expired now s ≡ true
      → s.s3_upload_id ≡ none
      → (delete_object s.s3_key t).0 ≡ ok tt
      → (sweep_session s3 now id (calm r t)).1.rows.tables ≡ r.tables
        × ((sweep_session s3 now id (calm r t)).1.objects ≡ (delete_object s.s3_key t).1)
  unfolding sweep_session sweep_found attempt attempted abort_session_upload abort_upload sweep_gone
      get_session delete_session call on_objects remove_session
  sweep_calm now id s r t e x u d = rw (e, x, u, d) (refl, refl)

  -- The sweep of an expired single-part session takes the bytes of a committed file that has its key,
  -- and the file stays.
  pub sweep_session-loses :
      (laws : IsStorage s3) (now : ℤ) (id f : String) (rec : FileRecord) (s : UploadSession)
      (r : Rows) (t : S)
      → lookup id r.sessions ≡ some s
      → is_expired now s ≡ true
      → s.s3_upload_id ≡ none
      → lookup f r.tables.files ≡ some rec
      → rec.s3_key ≡ s.s3_key
      → (delete_object s.s3_key t).0 ≡ ok tt
      → (lookup f (sweep_session s3 now id (calm r t)).1.rows.tables.files ≡ some rec)
        × (holds rec.s3_key (sweep_session s3 now id (calm r t)).1.objects ≡ false)
  sweep_session-loses laws now id f rec s r t e x u h k d =
      let (same, gone) = sweep_calm now id s r t e x u d in
      (rw same h, rw (gone, k) (laws.delete_removes s.s3_key t d))
