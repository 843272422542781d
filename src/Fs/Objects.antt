-- ===== src/Fs/Objects.antt =====
-- fs/s3.rs: the object storage behind the file service, as an interface, and what the engine relies on.
use rust_api.Prelude.{ℕ, String, ◌≡◌, ◌≢◌, Bool, true, false, Option, List, ℤ}
use rust_api.Prelude.Maps.{OrderedMap}
use rust_api.Fs.{Result, ok}

pub record PersistedMultipart : Type 0 where
  pub upload_id : String
  pub bucket : String
  pub key : String
  pub s3_upload_id : String
  pub parts : OrderedMap String
  pub created_at : ℤ

pub record ListedKey : Type 0 where
  pub key : String
  pub last_modified : ℤ

-- `S3Client`, for the bucket of the engine; `S` is all that its operations read and change, the
-- failures to come among it.
pub record S3Client (S : Type 0) : Type 0 where
  pub create_multipart_upload : String → S → Result String × S
  pub upload_part : String → String → ℕ → List ℕ → Option String → S → Result String × S
  pub complete_multipart_upload : String → String → List String → S → Result (Unit {0}) × S
  pub abort_multipart_upload : String → String → S → Result (Unit {0}) × S
  pub backend_upload_id : String → S → Option String × S
  pub restore_multipart : PersistedMultipart → S → Result (Unit {0}) × S
  pub put_object : String → List ℕ → Option String → S → Result (Unit {0}) × S
  pub delete_object : String → S → Result (Unit {0}) × S
  pub list_keys : String → S → Result (List ListedKey) × S
  -- Whether an object is there under a key.
  pub holds : String → S → Bool

module _ {S : Type 0} (s3 : S3Client S) where
  open s3 use {
    create_multipart_upload, upload_part, complete_multipart_upload, abort_multipart_upload,
    backend_upload_id, restore_multipart, put_object, delete_object, list_keys, holds,
  }

  -- Every object that was there still is.
  abbrev pub Keeps : S → S → Type 0
  Keeps s t = (k : String) → holds k s ≡ true → holds k t ≡ true

  -- Only a deletion takes an object away, and only the one it names; an acknowledged upload is there.
  pub record IsStorage : Type 0 where
    pub create_keeps : (k : String) (s : S) → Keeps s (create_multipart_upload k s).1
    pub upload_keeps :
        (k u : String) (n : ℕ) (b : List ℕ) (c : Option String) (s : S)
        → Keeps s (upload_part k u n b c s).1
    pub complete_keeps :
        (k u : String) (es : List String) (s : S) → Keeps s (complete_multipart_upload k u es s).1
    pub abort_keeps : (k u : String) (s : S) → Keeps s (abort_multipart_upload k u s).1
    pub id_keeps : (u : String) (s : S) → Keeps s (backend_upload_id u s).1
    pub restore_keeps : (m : PersistedMultipart) (s : S) → Keeps s (restore_multipart m s).1
    pub put_keeps :
        (k : String) (b : List ℕ) (c : Option String) (s : S) → Keeps s (put_object k b c s).1
    pub list_keeps : (p : String) (s : S) → Keeps s (list_keys p s).1
    pub delete_keeps :
        (k j : String) (s : S) → k ≢ j → holds j s ≡ true → holds j (delete_object k s).1 ≡ true
    pub put_holds :
        (k : String) (b : List ℕ) (c : Option String) (s : S)
        → (put_object k b c s).0 ≡ ok tt
        → holds k (put_object k b c s).1 ≡ true
    pub complete_holds :
        (k u : String) (es : List String) (s : S)
        → (complete_multipart_upload k u es s).0 ≡ ok tt
        → holds k (complete_multipart_upload k u es s).1 ≡ true
    pub delete_removes :
        (k : String) (s : S) → (delete_object k s).0 ≡ ok tt → holds k (delete_object k s).1 ≡ false
