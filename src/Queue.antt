-- ===== src/Queue.antt =====
-- queue.rs: jobs, statuses, retry policies and errors, shared by the queue backends.
pub mod Memory
pub mod Durable
use rust_api.Prelude.{ℕ, ◌/◌, ◌*◌, ℤ, String, Option, List, Bool, true, false}
use rust_api.Prelude.Maps.{Dict}

-- `Uuid`: its 128 bits as a number, in whose order the ids compare.
abbrev pub JobId : Type 0
JobId = ℕ

-- `Duration`, in nanoseconds.
abbrev pub Duration : Type 0
Duration = ℕ

abbrev pub as_secs : Duration → ℕ
as_secs d = d / 1000000000

pub record Job : Type 0 where
  pub id : JobId
  pub kind : String
  pub payload : List ℕ
  pub priority : ℤ
  pub attempt : ℕ
  pub max_attempts : ℕ
  pub created_at : ℤ
  pub scheduled_at : ℤ
  pub idempotency_key : Option String
  pub headers : Dict String

pub record LeasedJob : Type 0 where
  pub job : Job
  pub lease_expires_at : ℤ

pub data JobStatus : Type 0 where
  queued : JobStatus
  leased : String → ℤ → JobStatus
  succeeded : Option (List ℕ) → ℤ → JobStatus
  failed : String → ℤ → JobStatus
  dead : String → ℤ → JobStatus

pub data RetryPolicy : Type 0 where
  no_retry : RetryPolicy
  retry : Duration → RetryPolicy

pub data QueueError : Type 0 where
  store : String → QueueError
  not_found : JobId → QueueError
  already_leased lease_expired : QueueError
  duplicate_idempotency : String → QueueError
  invalid : String → QueueError
  unsupported io : String → QueueError

-- `Result<T, QueueError>`.
pub data Result {ℓ} (A : Type ℓ) : Type ℓ where
  ok : A → Result A
  err : QueueError → Result A

-- `matches!(status, JobStatus::Queued)`.
abbrev pub is_queued : JobStatus → Bool
is_queued queued = true
is_queued (leased w e) = false
is_queued (succeeded r f) = false
is_queued (failed e f) = false
is_queued (dead e f) = false
