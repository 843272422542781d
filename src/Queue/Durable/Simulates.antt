-- ===== src/Queue/Durable/Simulates.antt =====
-- queue/durable.rs: the queue as rows against the queue in memory, over any sequence of calls.
use rust_api.Prelude.{◌≡◌, refl, List, [], ◌∷◌}
use rust_api.Queue.{JobId, JobStatus, LeasedJob, Result, ok}
use rust_api.Queue.Memory.{State, Call, enqueues, reserves, acks, nacks, extends, asks, new, step}
use rust_api.Queue.Memory as Memory
use rust_api.Queue.Memory.Consistent.{IsConsistent, step-IsConsistent}
use rust_api.Queue.Memory.Ordered.{IsOrdered, step-IsOrdered}
use rust_api.Queue.Durable.{Db, enqueue, reserve, ack, nack, extend_lease, status}
use rust_api.Queue.Durable.Projected.{project, calm}
use rust_api.Queue.Durable.Refines.{
  ack-refines, nack-refines, status-refines, extend_lease-refines, enqueue-refines,
}
use rust_api.Queue.Durable.Reserved.{reserve-refines}

-- What a call is answered with.
pub data Answer : Type 0 where
  an_id : Result JobId → Answer
  some_jobs : Result (List LeasedJob) → Answer
  a_status : Result JobStatus → Answer
  done : Result (Unit {0}) → Answer

unfoldable pub reply : Call → State → Answer
reply (enqueues inject job) s = an_id (Memory.enqueue inject job s).0
reply (reserves t now worker limit lease) s =
    some_jobs (ok (Memory.reserve t now worker limit lease s).0)
reply (acks now id result) s = done (Memory.ack now id result s).0
reply (nacks now id error policy) s = done (Memory.nack now id error policy s).0
reply (extends t now id lease) s = done (Memory.extend_lease t now id lease s).0
reply (asks t id) s = a_status (Memory.status t id s).0

-- The answers of the queue in memory.
unfoldable pub replies : List Call → State → List Answer
replies [] s = []
replies (c ∷ cs) s = reply c s ∷ replies cs (step c s)

unfoldable pub answered {ℓ} : {A : Type ℓ} → (Result A → Answer) → Result A × Db → Answer × Db
answered f x = (f x.0, x.1)

-- The same call of the queue as rows.
unfoldable pub call : Call → Db → Answer × Db
call (enqueues inject job) d = answered an_id (enqueue inject job d)
call (reserves t now worker limit lease) d = answered some_jobs (reserve t now worker limit lease d)
call (acks now id result) d = answered done (ack now id result d)
call (nacks now id error policy) d = answered done (nack now id error policy d)
call (extends t now id lease) d = answered done (extend_lease t now id lease d)
call (asks t id) d = answered a_status (status t id d)

unfoldable pub run_rows : List Call → Db → List Answer × Db
run_rows [] d = ([], d)
run_rows (c ∷ cs) d = let (a, d') = call c d in let (as', e) = run_rows cs d' in (a ∷ as', e)

call-refines :
    (c : Call) (s : State)
    → IsOrdered s
    → IsConsistent s
    → call c (calm (project s)) ≡ (reply c s, calm (project (step c s)))
unfolding call reply step answered
call-refines (enqueues inject job) s h k = rw (enqueue-refines inject job s) refl
call-refines (reserves t now worker limit lease) s h k =
    rw (reserve-refines t now worker limit lease s h k) refl
call-refines (acks now id result) s h k = rw (ack-refines now id result s h) refl
call-refines (nacks now id error policy) s h k = rw (nack-refines now id error policy s h) refl
call-refines (extends t now id lease) s h k = rw (extend_lease-refines t now id lease s h k) refl
call-refines (asks t id) s h k = rw (status-refines t id s h) refl

run_rows-from :
    (cs : List Call) (s : State)
    → IsOrdered s
    → IsConsistent s
    → run_rows cs (calm (project s)) ≡ (replies cs s, calm (project (Memory.run cs s)))
unfolding run_rows replies Memory.run
run_rows-from [] s h k = refl
run_rows-from (c ∷ cs) s h k =
    rw
      (
        call-refines c s h k,
        run_rows-from cs (step c s) (step-IsOrdered c s h) (step-IsConsistent c s k),
      )
      refl

-- While no access of the store fails, any calls one after the other on an empty store are answered as
-- the queue in memory answers them from the start, and the rows are what its records come to, without
-- the fields that only the queue in memory has.
pub run_rows-refines :
    (cs : List Call)
    → run_rows cs (calm (project new)) ≡ (replies cs new, calm (project (Memory.run cs new)))
unfolding new
run_rows-refines cs = run_rows-from cs new tt tt
