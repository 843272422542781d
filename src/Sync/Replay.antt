-- ===== src/Sync/Replay.antt =====
-- sync/snapshot.rs, replay and advance: a replica brought up to the head of the log, or handed to the
-- rebuild workers.
pub mod Granted
pub mod Advanced
pub mod Claims
mod Tests
use rust_api.Prelude.{
  ℕ, zero, suc, ◌+◌, ◌-◌, ◌*◌, ◌/◌, ◌%◌, ◌^◌, ◌≤◌, ◌<◌, String, ◌≡◌, refl, sym, ap, ◌∙◌, subst, ◌≢◌,
  ◌↔◌, ◌⊎◌, inl, inr, Bool, true, false, not, ◌&&◌, ◌||◌, Option, none, some, List, [], ◌∷◌, ◌++◌,
  map, arith, str_eq, eq_iff, ltb, leb, ◌==◌, if◌then◌else◌, Bool-cases, Option-cases, length, take,
  All, count, ℤ, pos, negsuc, ltb_ℤ, leb_ℤ, ◌≤ℤ◌, ◌<ℤ◌, ◌-ℤ◌,
}
use rust_api.Records.{FileRecord, WalOp, WalEntry, policy_add, policy_remove}
use rust_api.Fs.{Result, ok, err, FsError, is_fencing_loss}
use rust_api.Fs.Store.{Disk, Tables, M, ◌>>=◌, ◌>>◌, resume, pure, write, read}
use rust_api.Sync.Policy.{Policy}
use rust_api.Sync.Groups.{member}
use rust_api.Sync.Replica.{
  World, W, on_master, on_replica, ApplyOutcome, applied, needs_full_rebuild, apply_ops,
}

pub data ReplayOutcome : Type 0 where
  advanced : ℕ → ReplayOutcome
  needs_rebuild : ReplayOutcome

pub record AdvanceOutcome : Type 0 where
  pub applied_seq : ℕ
  pub pending : Bool

unfoldable pub is_legacy_policy_mark : WalOp → Bool
is_legacy_policy_mark (policy_add obj) = true
is_legacy_policy_mark (policy_remove obj) = true
is_legacy_policy_mark op = false

unfoldable pub any_legacy : List WalEntry → Bool
any_legacy [] = false
any_legacy (e ∷ entries) = is_legacy_policy_mark e.op || any_legacy entries

-- What a call answers that neither store makes.
unfoldable pub answer {ℓ} : {A : Type ℓ} → Result A → W A
answer r w = (r, w)

-- A replica without a manifest has no number, and one that does not decode counts as none.
unfoldable pub load_applied : M (Option ℕ)
load_applied = read (λ t. t.applied)

unfoldable pub set_applied : ℕ → Tables → Tables
set_applied head t = record t { applied = some head }

-- `range` is what the log answers for a first and a last number, and `opened` what opening the replica's
-- writer does.
module _ (p : Policy) (sub : String) (now : ℤ) (range : ℕ → ℕ → Result (List WalEntry))
    (opened : Result (Unit {0})) where
  unfoldable pub replay_done : ℕ → ApplyOutcome → W ReplayOutcome
  replay_done head needs_full_rebuild = pure needs_rebuild
  replay_done head applied = do on_replica (write (set_applied head)); pure (advanced head)

  -- The bound is `MAX_REPLAY_OPS`.
  unfoldable pub replay_entries : ℕ → List WalEntry → W ReplayOutcome
  replay_entries head entries =
      if ltb 1000 (length entries) || any_legacy entries
      then pure needs_rebuild
      else (do answer opened; o ← apply_ops p sub now entries; replay_done head o)

  unfoldable pub replay_from : ℕ → Option ℕ → W ReplayOutcome
  replay_from head none = pure needs_rebuild
  replay_from head (some at) =
      if ltb head at
      then pure needs_rebuild
      else (if at == head
          then pure (advanced at)
          else (do entries ← answer (range (at + 1) head); replay_entries head entries))

  unfoldable pub replay : ℕ → W ReplayOutcome
  replay head = do at ← on_replica load_applied; replay_from head at

-- `BuildQueue`: the users whose build is claimed, the jobs sent and not yet received, and whether the
-- receiver is still there. A job holds its claim.
pub record BuildJob : Type 0 where
  pub sub : String
  pub head : ℕ

pub record BuildQueue : Type 0 where
  pub inflight : List String
  pub jobs : List BuildJob
  pub open_ : Bool

unfoldable pub claim : String → BuildQueue → Bool × BuildQueue
claim sub q =
    if member sub q.inflight then (false, q) else (true, record q { inflight = sub ∷ q.inflight })

unfoldable pub remove_name : String → List String → List String
remove_name x [] = []
remove_name x (y ∷ ys) = let rest = remove_name x ys in if str_eq y x then rest else y ∷ rest

-- The drop of a claim.
unfoldable pub release : String → BuildQueue → BuildQueue
release sub q = record q { inflight = remove_name sub q.inflight }

-- A job that cannot be sent is dropped, and its claim with it.
unfoldable pub dispatch : String → ℕ → BuildQueue → Bool × BuildQueue
dispatch sub head q =
    if q.open_
    then (true, record q { jobs = q.jobs ++ (record { sub = sub; head = head } ∷ []) })
    else (false, release sub q)

or_zero : Option ℕ → ℕ
or_zero none = 0
or_zero (some n) = n

-- The stores and the queue of builds.
pub record Node : Type 0 where
  pub world : World
  pub builds : BuildQueue

-- The middle part of `advance`, after the claim: `head` is the head that was read.
module _ (p : Policy) (sub : String) (now : ℤ) (range : ℕ → ℕ → Result (List WalEntry))
    (opened : Result (Unit {0})) (head : ℕ) where
  pub pending_at : Result (Option ℕ) → Result AdvanceOutcome
  pending_at (err e) = err e
  pending_at (ok at) = ok (record { applied_seq = or_zero at; pending = true })

  pub lost_at : FsError → Result (Option ℕ) → Result AdvanceOutcome
  lost_at e (err f) = err f
  lost_at e (ok none) = err e
  lost_at e (ok (some at)) = ok (record { applied_seq = at; pending = false })

  -- The applied number is read again, and the claim's fate is in `q`.
  unfoldable pub reload :
      (Result (Option ℕ) → Result AdvanceOutcome)
      → World
      → BuildQueue
      → Result AdvanceOutcome × Node
  reload f w q = let (r, w') = on_replica load_applied w in (f r, record { world = w'; builds = q })

  unfoldable pub advance_replayed :
      Result ReplayOutcome → World → BuildQueue → Result AdvanceOutcome × Node
  advance_replayed (ok (advanced seq)) w q = (
    ok (record { applied_seq = seq; pending = false }),
    record { world = w; builds = release sub q },
  )
  advance_replayed (ok needs_rebuild) w q = reload pending_at w (dispatch sub head q).1
  advance_replayed (err e) w q =
      if is_fencing_loss e
      then reload (lost_at e) w (release sub q)
      else (err e, record { world = w; builds = release sub q })

  unfoldable pub advance_claimed :
      Option ℕ → World → Bool × BuildQueue → Result AdvanceOutcome × Node
  advance_claimed at w (false, q) = (pending_at (ok at), record { world = w; builds = q })
  advance_claimed at w (true, q) =
      let (r, w') = replay p sub now range opened head w in advance_replayed r w' q

  unfoldable pub advance_loaded :
      Result (Option ℕ) → World → BuildQueue → Result AdvanceOutcome × Node
  advance_loaded (err e) w q = (err e, record { world = w; builds = q })
  advance_loaded (ok none) w q = advance_claimed none w (claim sub q)
  advance_loaded (ok (some at)) w q =
      if at == head
      then (ok (record { applied_seq = head; pending = false }), record { world = w; builds = q })
      else advance_claimed (some at) w (claim sub q)

-- `advance`, from what the log answers for its head.
unfoldable pub advance :
    Policy
    → String
    → ℤ
    → (ℕ → ℕ → Result (List WalEntry))
    → Result (Unit {0})
    → Result ℕ
    → Node
    → Result AdvanceOutcome × Node
advance p sub now range opened (err e) n = (err e, n)
advance p sub now range opened (ok head) n =
    let (at, w) = on_replica load_applied n.world in
    advance_loaded p sub now range opened head at w n.builds
