-- ===== src/Fs/Engine.antt =====
-- fs/mod.rs and fs/store.rs: the engine of the file service. Its rows are kept by a store whose calls
-- may fail, its bytes by an object storage; what changes is told to a feed. An engine without a feed
-- announces nothing, and is not modelled.
pub mod Uploads
pub mod Complete
pub mod Sweep
pub mod Actions
pub mod Ends
pub mod Blind
pub mod Staging
pub mod Announced
pub mod Stored
pub mod Lost
pub mod Spared
pub mod Reclaimed
pub mod Covered
mod Tests
use rust_api.Fs.Upload.{UploadSession}
use rust_api.Fs.Access.{Row, can_access}
use rust_api.Fs.Objects.{PersistedMultipart, S3Client}
use rust_api.Records.{file_delete, FileRecord, WalOp}
use rust_api.Fs.Store.{
  rel_key, put_file, pure, RefInfo, ◌>>=◌, ◌>>◌, resume, passes, lost, fails, ref_info, remove_file,
  Rel, Fault, add_marker, rows_of, remove_marker, Tables,
}
use rust_api.Prelude.{
  if◌then◌else◌, ◌==◌, str_eq, true, false, true, false, [], none, ℕ, Bool, some, ◌∷◌, ℤ, List,
  String, Option,
}
use rust_api.Prelude.Maps.{lookup, put, remove, Dict, Dict, put, remove}
use rust_api.Fs.{forbidden, not_found, ok, err, FsError, Result}

pub record Rows : Type 0 where
  -- The file records, the markers and the reference counts.
  pub tables : Tables
  -- `fs:uploads:…:meta` and `fs:mp:…`; the chunks that a session may have staged in the store are never
  -- written by the engine.
  pub sessions : Dict UploadSession
  pub multiparts : Dict PersistedMultipart
  -- The keys of the session and of the file rows that do not decode: a read of one by its id is a
  -- failed call.
  pub torn_sessions : List String
  pub torn_files : List String
  -- What the feed has taken in, the latest first.
  pub feed : List WalOp

-- The engine's state; `faults` is what becomes of the next calls of the store and of the feed.
pub record World (S : Type 0) : Type 0 where
  pub rows : Rows
  pub faults : List Fault
  pub objects : S

abbrev pub E {ℓ} : Type 0 → Type ℓ → Type ℓ
E S A = World S → Result A × World S

unfoldable pub call_with {ℓ} :
    {S : Type 0} {A : Type ℓ} → (Rows → A × Rows) → List Fault → Rows → S → Result A × World S
call_with g [] r s = (ok (g r).0, record { rows = (g r).1; faults = []; objects = s })
call_with g (passes ∷ fs) r s = (ok (g r).0, record { rows = (g r).1; faults = fs; objects = s })
call_with g (fails e ∷ fs) r s = (err e, record { rows = r; faults = fs; objects = s })
call_with g (lost e ∷ fs) r s = (err e, record { rows = (g r).1; faults = fs; objects = s })

-- A call of the store or of the feed.
unfoldable pub call {ℓ} : {S : Type 0} {A : Type ℓ} → (Rows → A × Rows) → E S A
unfolding call_with
call g w = call_with g w.faults w.rows w.objects

unfoldable pub on_objects {ℓ} : {S : Type 0} {A : Type ℓ} → (S → A × S) → World S → A × World S
on_objects op w = ((op w.objects).0, record w { objects = (op w.objects).1 })

abbrev pub fail {ℓ} : {S : Type 0} {A : Type ℓ} → FsError → E S A
fail e w = (err e, w)

abbrev pub answer {ℓ} : {S : Type 0} {A : Type ℓ} → Result A → E S A
answer r w = (r, w)

module _ {S : Type 0} where
  unfoldable pub get_session : String → E S (Option UploadSession)
  unfolding call lookup
  get_session id = call (λ r. (lookup id r.sessions, r))

  unfoldable pub save_session : UploadSession → E S (Unit {0})
  unfolding call put
  save_session s = call (λ r. (tt, record r { sessions = put s.id s r.sessions }))

  unfoldable pub load_multipart : String → E S (Option PersistedMultipart)
  unfolding call lookup
  load_multipart upload_id = call (λ r. (lookup upload_id r.multiparts, r))

  unfoldable pub save_multipart : PersistedMultipart → E S (Unit {0})
  unfolding call put
  save_multipart m = call (λ r. (tt, record r { multiparts = put m.upload_id m r.multiparts }))

  unfoldable pub delete_multipart : String → E S (Unit {0})
  unfolding call remove
  delete_multipart upload_id =
      call (λ r. (tt, record r { multiparts = remove upload_id r.multiparts }))

-- The multipart record of a session goes with it.
unfoldable pub upload_of : Option UploadSession → Option String
upload_of none = none
upload_of (some s) = s.s3_upload_id

unfoldable pub remove_multipart : Option String → Dict PersistedMultipart → Dict PersistedMultipart
unfolding remove
remove_multipart none ms = ms
remove_multipart (some upload_id) ms = remove upload_id ms

unfoldable pub remove_session : String → Option UploadSession → Rows → Rows
unfolding upload_of remove_multipart remove
remove_session id s r = record r {
  sessions = remove id r.sessions;
  multiparts = remove_multipart (upload_of s) r.multiparts;
}

module _ {S : Type 0} where
  unfoldable pub delete_session : String → E S (Unit {0})
  unfolding get_session call remove_session
  delete_session id = do s ← get_session id; call (λ r. (tt, remove_session id s r))

  unfoldable pub on_tables {ℓ} : {A : Type ℓ} → (Tables → A × Tables) → E S A
  unfolding call
  on_tables g = call (λ r. ((g r.tables).0, record r { tables = (g r.tables).1 }))

  unfoldable pub find_file : String → E S (Option FileRecord)
  unfolding on_tables lookup
  find_file id = on_tables (λ t. (lookup id t.files, t))

  unfoldable pub erase_file : String → E S (Unit {0})
  unfolding on_tables remove_file
  erase_file id = on_tables (λ t. (tt, remove_file id t))

  unfoldable pub save_file : FileRecord → E S (Unit {0})
  unfolding on_tables put_file
  save_file rec = on_tables (λ t. (tt, put_file rec t))

  unfoldable pub announce : WalOp → E S (Unit {0})
  unfolding call
  announce op = call (λ r. (tt, record r { feed = op ∷ r.feed }))

  unfoldable pub attach_found : Rel → Option FileRecord → E S ℕ
  unfolding on_tables add_marker announce
  attach_found (ty, rid, f) none = fail (not_found "file not found")
  attach_found (ty, rid, f) (some rec) = do
    n ← on_tables (add_marker (rel_key ty rid f))
    announce (WalOp.attach ty rid f)
    pure n

  -- `attach`: `allowed` is what the policy answers for a write of the row.
  unfoldable pub attach : Result (Unit {0}) → Rel → E S ℕ
  unfolding find_file attach_found
  attach allowed (ty, rid, f) = do
    answer allowed
    found ← find_file f
    attach_found (ty, rid, f) found

  unfoldable pub detach : Result (Unit {0}) → ℤ → Rel → E S ℕ
  unfolding on_tables remove_marker announce
  detach allowed now (ty, rid, f) = do
    answer allowed
    n ← on_tables (remove_marker now (rel_key ty rid f))
    announce (WalOp.detach ty rid f)
    pure n

-- Whether the caller may delete the file: a file with no reference is its owner's.
unfoldable pub may_delete :
    {S : Type 0} → (Row → Result Bool) → String → String → FileRecord → RefInfo → E S Bool
unfolding on_tables find_file rows_of
may_delete authorize caller id rec info =
    if info.count == 0 then pure (str_eq rec.owner_sub caller) else (do
      found ← find_file id
      rows ← on_tables (λ t. (rows_of id t.rels, t))
      answer (can_access (ok found) (ok rows) authorize caller))

module _ {S : Type 0} (s3 : S3Client S) where
  open s3 use {delete_object}

  -- The row goes before the bytes, and is announced before it goes.
  unfoldable pub delete_allowed : String → FileRecord → Bool → E S (Unit {0})
  unfolding announce erase_file on_objects
  delete_allowed id rec false = fail forbidden
  delete_allowed id rec true = do
    announce (file_delete id)
    erase_file id
    on_objects (delete_object rec.s3_key)

  unfoldable pub delete_found :
      (Row → Result Bool) → String → String → Option FileRecord → E S (Unit {0})
  unfolding on_tables ref_info may_delete delete_allowed
  delete_found authorize caller id none = fail (not_found "file not found")
  delete_found authorize caller id (some rec) = do
    info ← on_tables (λ t. (ref_info id t, t))
    allowed ← may_delete authorize caller id rec info
    delete_allowed id rec allowed

  unfoldable pub delete_file : (Row → Result Bool) → String → String → E S (Unit {0})
  unfolding find_file delete_found
  delete_file authorize caller id = do found ← find_file id; delete_found authorize caller id found
