-- ===== src/Lib.antt =====
-- The service library rust-api: a file service with a job queue, replicas that follow a master by its
-- change log, and a lease that lets one server write.
--
-- The parts, and the files that model them:
-- - Queue (src/queue.rs) and Queue/Memory (src/queue/memory.rs): the job queue in memory. Its state is
--   the records by job id and the ids by idempotency key; each method is a function of the state and of
--   the clock readings that it makes. `reserve` and the other methods that sweep read the clock twice,
--   and so have two times. `Call` and `run` are any sequence of calls, each under the queue's mutex.
-- - Queue/Durable (src/queue/durable.rs): the queue as rows of a store, an access to a step. `calm` is a
--   store no access of which fails; Queue/Durable/Projected has the rows that stand for a state of
--   Queue/Memory, and Queue/Durable/Raced two workers whose accesses interleave.
-- - Lease (src/lease.rs): the lease record and its liveness. Lease/Store is the object store that the
--   lease stands in, an interface with laws (the `object_store` crate). Lease/Acquire has `acquire` one
--   store call to a step, so that processes interleave; Lease/Holder has `renew` and `release`.
-- - Records (src/records.rs): the operations of the change log.
-- - Sync/Wal (src/sync/wal.rs): the change log, over a key-value store with laws (the `oxkv` crate) and
--   an encoding with round trips (the `serde_json` crate). The server that holds the lease appends.
-- - Sync/Keys and Sync/Merge (src/sync/snapshot.rs): the difference that `build_full` commits to a
--   replica, from the key-ordered pages of the filtered copy and of the live replica.
-- - Sync/Policy, Sync/Groups, Sync/Replica and Sync/Replay (src/sync/snapshot.rs): the log's changes
--   brought into a user's replica. `World` is the service's store and the replica's, each with what it
--   makes of its next calls; the policy is an argument. Sync/Groups searches the groups of a subject in
--   as many rounds as there are group names and two more. Sync/Replica has `apply_op` and what it calls,
--   Sync/Replay has `replay`, `advance` and the queue of builds. Sync/Replica/Safe is a logic of what a
--   run may bring in whatever fails; Sync/Replica/Quiet has the runs in which nothing fails.
-- - Sync/Rebuild (src/sync/snapshot.rs): the copy of what a user may see, which a full rebuild compares
--   with the live replica. What the walk over the service's files answers is an argument.
-- - Fs (src/fs/error.rs), Fs/Model (src/fs/model.rs) and Fs/Upload (src/fs/mod.rs): the errors of the
--   file service and their responses, the validation of announced sizes, and the intake of one part's
--   body. Fs/Access (src/fs/mod.rs): who may read a file, and the range of a download.
-- - Fs/Token (src/fs/token.rs): the capability tokens, over a token library without laws.
-- - Fs/Pages (src/fs/store.rs): the paged walk over a store, which Sync/Merge joins two of; its pages of
--   512 entries are the store's answers, an argument of the walk.
-- - Fs/Store (src/fs/store.rs, src/fs/relation.rs): file records, the markers that attach files to rows,
--   and the reference counts. A transaction passes, fails with nothing done, or is done with its answer
--   lost; `Call` and `run_calls` are any sequence of calls that change the store. A marker is its key: the
--   part before the first colon, the middle, which may have colons, and the file's id, a UUID without one.
--   Rows are read back from keys as the code does, so an id ends at its first colon; Prelude/Texts has the
--   two sides of a colon.
-- - Fs/Objects (src/fs/s3.rs): the object storage behind the file service, an interface; `IsStorage` has
--   its laws. What a call of it makes of a failure is part of its state.
-- - Fs/Engine (src/fs/mod.rs, src/fs/store.rs): the engine over its rows, the feed (the change log) and the
--   object storage. `World` is all three with what becomes of the next calls of the store and the feed.
--   Fs/Engine/Uploads has init_upload, the two halves of upload_part and merge_part; Fs/Engine/Complete has
--   complete_upload, cancel_upload and abort_session_upload; Fs/Engine/Sweep (src/fs/gc.rs) has sweep_once.
--   Fs/Engine/Actions has any order of requests, the halves of different parts interleaved. Fs/Engine/Ends
--   is a logic of what a run establishes whatever fails, Fs/Engine/Blind what changes no row but multipart
--   records.
-- - Fs/Client (src/fs/object_store.rs): the multipart uploads of the object storage client, its states in
--   memory over a backend that is an interface. Fs/Client/Ordered has the etags against the parts,
--   Fs/Client/Restored an upload taken from its record, Fs/Client/Uploaded one from its creation on.
-- - Limits (src/limits.rs): the token buckets of the API's peers, over an interface of floating-point
--   numbers. `calls` is any requests, one after the other; the loop of `make_room` has the number of entries
--   as fuel, one of which each round removes. Limits/Room is the eviction.
-- - Retry (src/retry.rs): the retry loop, over any operation.
-- - Prelude: the shared names, Boolean tests, lists, maps, and machine integers with their wrap-around.
--
-- Integers of 64 bits wrap where the code's do in a release build; a duration is in nanoseconds, a time
-- in seconds. Loops are structural: over the records, the chunks, the pages, or the numbers of a range.
-- `acquire` makes four steps, the most that any path of the code makes.
--
-- Not modelled: metrics, logs and traces; the text of error messages beyond their fixed part; the HTTP
-- layer, the rules of the access policy, the identity provider, the calls of the object storage client on
-- whole objects, a detachment of a file id with a colon, an engine without a feed, and `build_full`
-- around the copy and the difference.
mod Prelude
pub mod Queue
pub mod Lease
pub mod Limits
pub mod Retry
pub mod Records
pub mod Sync
pub mod Fs
