-- ===== src/Queue/Durable/Tests.antt =====
-- Runs of queue/durable.rs.
use rust_api.Prelude.{◌≡◌, none, some, List, [], ◌∷◌, length, take, pos}
use rust_api.Queue.{Job, LeasedJob, queued, ok}
use rust_api.Queue.Memory.{Call, enqueues, reserves, acks, new}
use rust_api.Queue.Memory as Memory
use rust_api.Queue.Durable.{Rows, candidates}
use rust_api.Queue.Durable.Projected.{project, calm}
use rust_api.Queue.Durable.Simulates.{run_rows, replies, run_rows-refines}
use rust_api.Queue.Durable.Raced.{race, race-same}

abbrev mail : Job
mail = record {
  id = 7;
  kind = "mail";
  payload = [];
  priority = pos 0;
  attempt = 0;
  max_attempts = 3;
  created_at = pos 1;
  scheduled_at = pos 1;
  idempotency_key = some "welcome";
  headers = [];
}

abbrev some_calls : List Call
some_calls =
    enqueues (λ h. h) mail
    ∷ reserves (pos 2) (pos 2) "w" 5 3000000000
    ∷ reserves (pos 9) (pos 9) "v" 5 3000000000
    ∷ acks (pos 10) 7 none
    ∷ []

run_rows-refines_example :
    run_rows some_calls (calm (project new))
    ≡ (replies some_calls new, calm (project (Memory.run some_calls new)))
run_rows-refines_example = run_rows-refines some_calls

abbrev one_row : Rows
one_row = record { jobs = (7, record { job = mail; status = queued }) ∷ []; idempotency = [] }

race-same_example :
    (xs : List LeasedJob) × ((race (pos 2) 5 "w" "v" (pos 12) (calm one_row)).0 ≡ ok (xs, xs))
    × (length xs ≡ length (take 5 (candidates (pos 2) one_row.jobs)))
race-same_example = race-same (pos 2) 5 "w" "v" (pos 12) one_row
