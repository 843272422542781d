-- ===== src/Lease/Store.antt =====
-- The object store behind the lease (the `object_store` crate), as what lease.rs calls and relies
-- on, and the JSON form of the record (`serde_json`).
use rust_api.Lease.{LeaseRecord}
use rust_api.Prelude.{String, ◌≡◌, ◌⊎◌, Bool, Option, none, some}

pub data PutMode (V : Type 0) : Type 0 where
  create overwrite : PutMode V
  matching : V → PutMode V

pub data PutError : Type 0 where
  precondition already_exists : PutError
  put_failed : String → PutError

-- `get_opts`, then `bytes()` of the result.
pub data Got (B V : Type 0) : Type 0 where
  found : B → V → Got B V
  missing : Got B V
  get_failed : String → Got B V

-- A store may fail any call; its state says what it will do.
pub record ObjectStore : Type 1 where
  pub Bytes : Type 0
  pub Version : Type 0
  pub State : Type 0
  pub to_vec : LeaseRecord → Option Bytes
  pub from_slice : Bytes → Option LeaseRecord
  pub get_opts : String → State → Got Bytes Version × State
  pub put_opts : String → Bytes → PutMode Version → State → Option PutError × State
  pub delete : String → State → Bool × State
  -- What a state stores under a path.
  pub object : String → State → Option (Bytes × Version)

-- The object before a write in this mode that takes place.
abbrev pub Allowed : {B V : Type 0} → PutMode V → Option (B × V) → Type 0
Allowed create before = before ≡ none
Allowed overwrite before = Unit {0}
Allowed {B} {V} (matching v) before = (c : B) × (before ≡ some (c, v))

-- What is documented of the calls.
module _ (o : ObjectStore) where
  open o use {Bytes, Version, State, to_vec, from_slice, get_opts, put_opts, object}

  pub record StoreLaws : Type 0 where
    -- What is written is read back.
    pub round_trip : (r : LeaseRecord) (b : Bytes) → to_vec r ≡ some b → from_slice b ≡ some r
    -- Reading changes no object, and answers from the object.
    pub get_keeps : (p : String) (s : State) → object p (get_opts p s).1 ≡ object p s
    pub get_found :
        (p : String) (s : State) (b : Bytes) (v : Version)
        → (get_opts p s).0 ≡ found b v
        → object p s ≡ some (b, v)
    pub get_missing : (p : String) (s : State) → (get_opts p s).0 ≡ missing → object p s ≡ none
    -- A version stands for one content.
    pub version_content :
        (p : String) (s t : State) (b c : Bytes) (v : Version)
        → object p s ≡ some (b, v)
        → object p t ≡ some (c, v)
        → b ≡ c
    -- A write that succeeds has taken place.
    pub put_ok :
        (p : String) (b : Bytes) (m : PutMode Version) (s : State)
        → (put_opts p b m s).0 ≡ none
        → Allowed m (object p s) × ((v : Version) × (object p (put_opts p b m s).1 ≡ some (b, v)))
    -- A write that fails has not taken place, or has after all (a lost answer).
    pub put_effect :
        (p : String) (b : Bytes) (m : PutMode Version) (s : State)
        → (object p (put_opts p b m s).1 ≡ object p s)
          ⊎ (Allowed m (object p s)
              × ((v : Version) × (object p (put_opts p b m s).1 ≡ some (b, v))))
