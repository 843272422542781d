-- ===== src/Fs.antt =====
-- fs/error.rs: the errors of the file service.
pub mod Model
pub mod Upload
pub mod Store
pub mod Pages
pub mod Token
pub mod Access
pub mod Objects
pub mod Engine
pub mod Client
mod Tests
use rust_api.Prelude.{
  ℕ, zero, suc, ◌+◌, ◌-◌, ◌*◌, ◌/◌, ◌%◌, ◌^◌, ◌≤◌, ◌<◌, String, ◌≡◌, refl, sym, ap, ◌∙◌, subst, ◌≢◌,
  ◌↔◌, ◌⊎◌, inl, inr, Bool, true, false, not, ◌&&◌, ◌||◌, Option, none, some, List, [], ◌∷◌, ◌++◌,
  map, arith, str_eq, eq_iff, ltb, leb, ◌==◌, if◌then◌else◌, Bool-cases, Option-cases, length, take,
  All, count, ℤ, pos, negsuc, ltb_ℤ, leb_ℤ, ◌≤ℤ◌, ◌<ℤ◌, ◌-ℤ◌,
}

pub data FsError : Type 0 where
  bad_request : String → FsError
  payload_too_large forbidden : FsError
  not_found internal store : String → FsError
  too_many_requests : FsError
  fenced : String → FsError

-- `Result<T, FsError>`.
pub data Result {ℓ} (A : Type ℓ) : Type ℓ where
  ok : A → Result A
  err : FsError → Result A

-- `From<oxkv::StoreError>`, for the two sorts of error that it tells apart.
pub data StoreError : Type 0 where
  store_fenced store_other : String → StoreError

pub from_store_error : StoreError → FsError
from_store_error (store_fenced reason) = fenced reason
from_store_error (store_other detail) = store detail

pub is_fencing_loss : FsError → Bool
is_fencing_loss (fenced reason) = true
is_fencing_loss _ = false

-- `detail`
pub detail : FsError → String
detail (bad_request d) = d
detail (not_found d) = d
detail (internal d) = d
detail (store d) = d
detail (fenced d) = d
detail payload_too_large = ""
detail forbidden = ""
detail too_many_requests = ""

-- What a client is shown.
client_message : FsError → String
client_message (bad_request d) = "bad request"
client_message forbidden = "forbidden"
client_message (not_found d) = "not found"
client_message payload_too_large = "payload too large"
client_message (internal d) = "internal server error"
client_message (store d) = "internal server error"
client_message (fenced d) = "internal server error"
client_message too_many_requests = "too many requests"

pub code : FsError → String
code (bad_request d) = "invalid_request"
code payload_too_large = "payload_too_large"
code forbidden = "forbidden"
code (not_found d) = "not_found"
code (internal d) = "internal_error"
code (store d) = "internal_error"
code (fenced d) = "internal_error"
code too_many_requests = "too_many_requests"

status_code : FsError → ℕ
status_code (bad_request d) = 400
status_code payload_too_large = 413
status_code forbidden = 403
status_code (not_found d) = 404
status_code (internal d) = 500
status_code (store d) = 500
status_code (fenced d) = 500
status_code too_many_requests = 429

-- What `error_response` puts into the envelope.
pub error_response : FsError → ℕ × String × String
unfolding status_code client_message code
error_response e = (status_code e, client_message e, code e)

-- The envelope of a code.
envelope : String → ℕ × String × String
envelope c =
    if str_eq c "invalid_request"
    then (400, "bad request", c)
    else if str_eq c "payload_too_large"
    then (413, "payload too large", c)
    else if str_eq c "forbidden"
    then (403, "forbidden", c)
    else if str_eq c "not_found"
    then (404, "not found", c)
    else if str_eq c "internal_error"
    then (500, "internal server error", c)
    else (429, "too many requests", c)

error_response-envelope : (e : FsError) → error_response e ≡ envelope (code e)
unfolding error_response envelope
error_response-envelope (bad_request d) = refl
error_response-envelope payload_too_large = refl
error_response-envelope forbidden = refl
error_response-envelope (not_found d) = refl
error_response-envelope (internal d) = refl
error_response-envelope (store d) = refl
error_response-envelope (fenced d) = refl
error_response-envelope too_many_requests = refl

-- The code of a response tells all that the response does: errors of one code, whatever their
-- details, have one response.
pub error_response-code : (e e' : FsError) → code e ≡ code e' → error_response e ≡ error_response e'
error_response-code e e' h =
    error_response-envelope e ∙ ap envelope h ∙ sym (error_response-envelope e')
