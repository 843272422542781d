-- ===== src/Fs/Engine/Sweep.antt =====
-- fs/gc.rs: one sweep of expired sessions, unreferenced files and stranded bytes. The log objects of the
-- store itself that it also collects are not keys under "files/", and are not modelled.
use rust_api.Fs.Upload.{UploadSession}
use rust_api.Fs.Engine.Complete.{abort_session_upload}
use rust_api.Records.{file_delete, FileRecord}
use rust_api.Fs.{err, ok, Result}
use rust_api.Fs.Engine.{
  World, on_objects, get_session, on_tables, call, E, delete_session, erase_file, announce,
}
use rust_api.Fs.Objects.{ListedKey, S3Client}
use rust_api.Prelude.Maps.{Dict}
use rust_api.Prelude.{
  ◌==◌, none, str_eq, not, false, ◌||◌, ltb_ℤ, ◌++◌, true, ◌∷◌, some, ◌+◌, Bool, ℕ, [], pos, ℤ,
  Option, List, String, sub_i64, if◌then◌else◌,
}
use rust_api.Fs.Store.{ref_info, RefInfo, ◌>>=◌, ◌>>◌, pure}

abbrev pub ttl_secs : ℤ
ttl_secs = pos 86400

-- More than the time to live has passed since then.
unfoldable pub is_past : ℤ → ℤ → Bool
unfolding sub_i64
is_past now since = ltb_ℤ ttl_secs (sub_i64 now since)

-- `UploadSession::is_expired`
unfoldable pub is_expired : ℤ → UploadSession → Bool
unfolding is_past
is_expired now s = is_past now s.created_at

unfoldable pub values {ℓ} : {V : Type ℓ} → Dict V → List V
values [] = []
values ((k, v) ∷ m) = v ∷ values m

-- `orphan_since`, or else when the file was created.
unfoldable pub age_from : RefInfo → FileRecord → ℤ
age_from i f = elim i.orphan_since [ none ↦ f.created_at | some t ↦ t ]

unfoldable pub has_key : String → List String → Bool
has_key k [] = false
has_key k (j ∷ js) = str_eq j k || has_key k js

unfoldable pub session_keys : List UploadSession → List String
session_keys [] = []
session_keys (s ∷ ss) = s.s3_key ∷ session_keys ss

unfoldable pub file_keys : List FileRecord → List String
file_keys [] = []
file_keys (f ∷ fs) = f.s3_key ∷ file_keys fs

-- The keys that a session or a file has.
unfoldable pub live_keys : List UploadSession → List FileRecord → List String
unfolding session_keys file_keys
live_keys sessions files = session_keys sessions ++ file_keys files

-- A listing that failed is empty.
unfoldable pub listed {ℓ} : {A : Type ℓ} → Option (List A) → List A
listed none = []
listed (some xs) = xs

unfoldable pub is_complete : List String → List String → Bool
is_complete [] [] = true
is_complete _ _ = false

module _ {S : Type 0} where
  unfoldable pub attempted {ℓ} : {A : Type ℓ} → Result A × World S → Result (Option A) × World S
  attempted (ok a, w) = (ok (some a), w)
  attempted (err e, w) = (ok none, w)

  -- A failure is noted, and the sweep goes on.
  unfoldable pub attempt {ℓ} : {A : Type ℓ} → E S A → E S (Option A)
  unfolding attempted
  attempt m w = attempted (m w)

  unfoldable pub list_sessions : E S (List UploadSession × List String)
  unfolding call values
  list_sessions = call (λ r. ((values r.sessions, r.torn_sessions), r))

  unfoldable pub list_files : E S (List FileRecord × List String)
  unfolding call values
  list_files = call (λ r. ((values r.tables.files, r.torn_files), r))

  unfoldable pub sweep_gone : String → Option (Unit {0}) → E S ℕ
  unfolding delete_session
  sweep_gone id none = pure 0
  sweep_gone id (some t) = do delete_session id; pure 1

  unfoldable pub sweep_row : String → Option (Unit {0}) → E S ℕ
  unfolding erase_file
  sweep_row id none = pure 0
  sweep_row id (some t) = do erase_file id; pure 1

  unfoldable pub sweep_told : String → Option (Unit {0}) → E S ℕ
  unfolding announce attempt sweep_row
  sweep_told id none = pure 0
  sweep_told id (some t) = do told ← attempt (announce (file_delete id)); sweep_row id told

  unfoldable pub counted_key : Option (Unit {0}) → E S ℕ
  counted_key none = pure 0
  counted_key (some t) = pure 1

module _ {S : Type 0} (s3 : S3Client S) where
  open s3 use {delete_object, list_keys}

  unfoldable pub sweep_found : ℤ → Option UploadSession → E S ℕ
  unfolding is_expired attempt abort_session_upload sweep_gone
  sweep_found now none = pure 0
  sweep_found now (some s) =
      if not (is_expired now s)
      then pure 0
      else (do gone ← attempt (abort_session_upload s3 s); sweep_gone s.id gone)

  -- One session, read again under its lock.
  unfoldable pub sweep_session : ℤ → String → E S ℕ
  unfolding get_session sweep_found
  sweep_session now id = do found ← get_session id; sweep_found now found

  unfoldable pub sweep_sessions : ℤ → List UploadSession → E S ℕ
  unfolding sweep_session
  sweep_sessions now [] = pure 0
  sweep_sessions now (s ∷ ss) = do
    n ← sweep_session now s.id
    m ← sweep_sessions now ss
    pure (n + m)

  unfoldable pub sweep_counted : ℤ → FileRecord → Option RefInfo → E S ℕ
  unfolding is_past age_from attempt on_objects sweep_told
  sweep_counted now f none = pure 0
  sweep_counted now f (some i) =
      if not (i.count == 0) || not (is_past now (age_from i f))
      then pure 0
      else (do gone ← attempt (on_objects (delete_object f.s3_key)); sweep_told f.id gone)

  unfoldable pub sweep_file : ℤ → FileRecord → E S ℕ
  unfolding on_tables ref_info attempt sweep_counted
  sweep_file now f = do
    info ← attempt (on_tables (λ t. (ref_info f.id t, t)))
    sweep_counted now f info

  unfoldable pub sweep_files : ℤ → List FileRecord → E S ℕ
  unfolding sweep_file
  sweep_files now [] = pure 0
  sweep_files now (f ∷ fs) = do n ← sweep_file now f; m ← sweep_files now fs; pure (n + m)

  unfoldable pub sweep_key : ℤ → List String → ListedKey → E S ℕ
  unfolding has_key is_past attempt on_objects counted_key
  sweep_key now live e =
      if has_key e.key live || not (is_past now e.last_modified)
      then pure 0
      else (do gone ← attempt (on_objects (delete_object e.key)); counted_key gone)

  unfoldable pub sweep_keys : ℤ → List String → List ListedKey → E S ℕ
  unfolding sweep_key
  sweep_keys now live [] = pure 0
  sweep_keys now live (e ∷ es) = do
    n ← sweep_key now live e
    m ← sweep_keys now live es
    pure (n + m)

  -- The bytes that no row names; with a row that does not decode there is no telling.
  unfoldable pub sweep_bytes : ℤ → Bool → List String → E S ℕ
  unfolding attempt on_objects listed sweep_keys
  sweep_bytes now complete live = if not complete then pure 0 else (do
    found ← attempt (on_objects (list_keys "files/"))
    sweep_keys now live (listed found))

  unfoldable pub sweep_once : ℤ → E S ℕ
  unfolding list_sessions list_files sweep_sessions sweep_files sweep_bytes is_complete live_keys
  sweep_once now = do
    sessions ← list_sessions
    files ← list_files
    a ← sweep_sessions now sessions.0
    b ← sweep_files now files.0
    c ← sweep_bytes now (is_complete sessions.1 files.1) (live_keys sessions.0 files.0)
    pure (a + b + c)
