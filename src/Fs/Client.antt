-- ===== src/Fs/Client.antt =====
-- fs/object_store.rs: the multipart uploads of the object storage client. What it keeps of each is in
-- memory; the uploads themselves are the backend's.
pub mod Ordered
pub mod Restored
pub mod Uploaded
mod Tests
use rust_api.Fs.{bad_request, internal, err, ok, not_found, FsError, Result}
use rust_api.Fs.Objects.{PersistedMultipart}
use rust_api.Prelude.{
  ◌==◌, ◌-◌, length, ◌+◌, ◌∷◌, ◌||◌, ltb, none, str_eq, [], not, some, List, Bool, String, ℕ,
  Option, if◌then◌else◌,
}
use rust_api.Prelude.Maps.{lookup, put, remove, Dict, OrderedMap, get, insert}
use rust_api.Fs.Store.{◌>>=◌, ◌>>◌, resume, pure}
use Prim.Native.String.{◌++◌ as ◌++ˢ◌}

pub record MultipartState : Type 0 where
  pub bucket : String
  pub key : String
  pub path : String
  pub id : String
  -- A part is its content id.
  pub parts : OrderedMap String

-- `object_store::Error`, for the two sorts that are told apart.
pub data BackendError : Type 0 where
  backend_not_found backend_other : String → BackendError

pub data Answer {ℓ} (A : Type ℓ) : Type ℓ where
  answered : A → Answer A
  refused : BackendError → Answer A

-- `MultipartStore` of the `object_store` crate, by path, upload id, part index and bytes, with the
-- crate's reading of a path.
pub record MultipartStore (B : Type 0) : Type 0 where
  pub path_from : String → String
  pub create_multipart : String → B → Answer String × B
  pub put_part : String → String → ℕ → List ℕ → B → Answer String × B
  pub complete_multipart : String → String → List String → B → Answer (Unit {0}) × B
  pub abort_multipart : String → String → B → Answer (Unit {0}) × B

pub record ObjectStoreClient (B : Type 0) : Type 0 where
  pub states : Dict MultipartState
  pub is_memory : Bool
  pub backend : B

-- `map_err`
unfoldable pub map_err : BackendError → FsError
map_err (backend_not_found e) = not_found e
map_err (backend_other e) = internal e

unfoldable pub from_answer {ℓ} : {A : Type ℓ} → Answer A → Result A
unfolding map_err
from_answer (answered a) = ok a
from_answer (refused e) = err (map_err e)

abbrev pub C {ℓ} : Type 0 → Type ℓ → Type ℓ
C B A = ObjectStoreClient B → Result A × ObjectStoreClient B

abbrev pub failing {ℓ} : {B : Type 0} {A : Type ℓ} → FsError → C B A
failing e c = (err e, c)

unfoldable pub backend_id_of : Option MultipartState → Option String
backend_id_of none = none
backend_id_of (some state) = some state.id

-- One etag against its part, with what the later ones give.
unfoldable pub check_part : String → Option String → Result (List String) → Result (List String)
check_part etag none rest = err (internal "missing part")
check_part etag (some part) (err e) =
    if not (str_eq part etag) then err (internal "etag mismatch for part") else err e
check_part etag (some part) (ok ids) =
    if not (str_eq part etag) then err (internal "etag mismatch for part") else ok (part ∷ ids)

-- The etags against the parts, in order.
unfoldable pub ordered : ℕ → List String → OrderedMap String → Result (List String)
unfolding get check_part
ordered i [] parts = ok []
ordered i (etag ∷ etags) parts = check_part etag (get i parts) (ordered (i + 1) etags parts)

unfoldable pub is_other : String → String → MultipartState → Bool
is_other bucket key state = not (str_eq state.bucket bucket) || not (str_eq state.key key)

module _ {B : Type 0} where
  -- A call of the backend.
  unfoldable pub on_backend {ℓ} : {A : Type ℓ} → (B → Answer A × B) → C B A
  unfolding from_answer
  on_backend call c = (from_answer (call c.backend).0, record c { backend = (call c.backend).1 })

  unfoldable pub set_state : String → MultipartState → C B (Unit {0})
  unfolding put
  set_state upload_id state c = (ok tt, record c { states = put upload_id state c.states })

  unfoldable pub find_state : String → C B (Option MultipartState)
  unfolding lookup
  find_state upload_id c = (ok (lookup upload_id c.states), c)

  unfoldable pub take_state : String → C B (Option MultipartState)
  unfolding lookup remove
  take_state upload_id c =
      (ok (lookup upload_id c.states), record c { states = remove upload_id c.states })

  -- A part whose upload is gone meanwhile is not kept.
  unfoldable pub keep_part : String → ℕ → String → Option MultipartState → C B String
  unfolding set_state insert
  keep_part upload_id i part none = pure part
  keep_part upload_id i part (some state) = do
    set_state upload_id (record state { parts = insert i part state.parts })
    pure part

  -- `backend_upload_id`
  unfoldable pub backend_upload_id : String → C B (Option String)
  unfolding find_state backend_id_of
  backend_upload_id upload_id = do found ← find_state upload_id; pure (backend_id_of found)

module _ {B : Type 0} (store : MultipartStore B) where
  open store use {path_from, create_multipart, put_part, complete_multipart, abort_multipart}

  unfoldable pub path_of : String → String → ObjectStoreClient B → String
  path_of bucket key c = path_from (if c.is_memory then bucket ++ˢ ("/" ++ˢ key) else key)

  -- `restore_multipart`
  unfoldable pub restore_multipart : PersistedMultipart → C B (Unit {0})
  unfolding path_of set_state
  restore_multipart m c =
      if str_eq m.bucket "" || str_eq m.key ""
      then (err (internal "multipart record missing bucket/key"), c)
      else set_state m.upload_id
          (record {
            bucket = m.bucket;
            key = m.key;
            path = path_of m.bucket m.key c;
            id = m.s3_upload_id;
            parts = m.parts;
          })
          c

  -- `create_multipart_upload`; `upload_id` is the alias made of a new uuid.
  unfoldable pub create_multipart_upload : String → String → String → C B String
  unfolding path_of on_backend set_state
  create_multipart_upload upload_id bucket key c =
      (do
        id ← on_backend (create_multipart (path_of bucket key c))
        set_state upload_id (record {
          bucket = bucket;
          key = key;
          path = path_of bucket key c;
          id = id;
          parts = [];
        })
        pure upload_id)
        c

  unfoldable pub put_found :
      String → String → String → ℕ → List ℕ → Option MultipartState → C B String
  unfolding is_other on_backend find_state keep_part
  put_found bucket key upload_id i body none = failing (internal "unknown upload_id")
  put_found bucket key upload_id i body (some state) =
      if is_other bucket key state then failing (internal "bucket/key mismatch") else (do
        part ← on_backend (put_part state.path state.id i body)
        found ← find_state upload_id
        keep_part upload_id i part found)

  -- `upload_part`; the parts count from 1, and a negative number is refused as 0 is.
  unfoldable pub upload_part : String → String → String → ℕ → List ℕ → C B String
  unfolding find_state put_found
  upload_part bucket key upload_id part_number body =
      if ltb part_number 1 then failing (bad_request "part_number must be >= 1") else (do
        found ← find_state upload_id
        put_found bucket key upload_id (part_number - 1) body found)

  unfoldable pub complete_ordered : MultipartState → Result (List String) → C B (Unit {0})
  unfolding on_backend
  complete_ordered state (err e) = failing e
  complete_ordered state (ok ids) = on_backend (complete_multipart state.path state.id ids)

  unfoldable pub complete_taken :
      String → String → List String → Option MultipartState → C B (Unit {0})
  unfolding is_other ordered complete_ordered
  complete_taken bucket key etags none = failing (internal "unknown upload_id")
  complete_taken bucket key etags (some state) =
      if is_other bucket key state
      then failing (internal "bucket/key mismatch")
      else if not (length etags == length state.parts)
      then failing (internal "etag count")
      else complete_ordered state (ordered 0 etags state.parts)

  unfoldable pub complete_multipart_upload : String → String → String → List String → C B (Unit {0})
  unfolding take_state complete_taken
  complete_multipart_upload bucket key upload_id etags = do
    taken ← take_state upload_id
    complete_taken bucket key etags taken

  unfoldable pub abort_found : String → String → String → Option MultipartState → C B (Unit {0})
  unfolding is_other take_state on_backend
  abort_found bucket key upload_id none = pure tt
  abort_found bucket key upload_id (some state) =
      if is_other bucket key state
      then failing (internal "bucket/key mismatch")
      else (do taken ← take_state upload_id; on_backend (abort_multipart state.path state.id))

  unfoldable pub abort_multipart_upload : String → String → String → C B (Unit {0})
  unfolding find_state abort_found
  abort_multipart_upload bucket key upload_id = do
    found ← find_state upload_id
    abort_found bucket key upload_id found
