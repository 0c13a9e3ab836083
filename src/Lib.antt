-- ===== src/Lib.antt =====
-- benri-stream: videos are uploaded to an object storage, transcoded to HLS by workers, and shared by
-- a link. Both halves of the backend, the api and the workers, meet in two Postgres tables, `videos`
-- and `tasks`; a task is picked up by a poller, passed to a consumer by a queue, run by its handler,
-- and its row rewritten with the outcome.
--
-- The parts, and the files that model them:
--  - Prelude: native numbers, lists, integers of fixed width and texts; no code of the program.
--  - Platform: the crates that the program calls (uuid, serde_json) as a record of functions that the
--    definitions take as a parameter, and `Result`.
--  - Video, Video/Status, Video/Format: crates/domain/src/video/mod.rs.
--  - Task/Types, Task/Status, Task/Update, Task/Scheduler, Task/Metadata: crates/domain/src/task. An
--    attempt count is an i32 and a delay an i64 of milliseconds: `as_signed` wraps around,
--    `saturate_i64` stops. Task/Update/Backoff is about the delay.
--  - Db/Tables, Db/Videos, Db/Tasks: migrations/001_init.sql and the statements of
--    crates/infrastructure/src/postgres. A table is a list of rows; a statement is a function from the
--    tables to its answer and the new tables, or to an error when it breaks a constraint, and then
--    nothing changes. `find_pending` is written CTE by CTE. Their children hold what the statements
--    keep: the tokens (Videos/Tokens, Videos/Forms), the states (Videos/Lifecycle), the rows that are
--    selected, their order and that none is passed over (Tasks/Selection, Tasks/Sorting, Tasks/Order,
--    Tasks/Completeness) and the exclusion of keys (Tasks/Exclusion, Tasks/Growth).
--  - Effects/Ports, Effects/Database: a run of a use case in an environment, which says for the n-th
--    call out of the process what the other processes did before it, whether the call fails before or
--    after its effect, and what the storage, the transcoder, the clock, the locks and the queue answer.
--    `run` is `PgTransactionPort::run`. Effects/Transactions holds its laws, Effects/Keeps the rules for
--    what a computation keeps, Effects/Answers and Effects/Frames what its success says of its parts.
--  - UseCases: crates/application/src/usecases/video, one file for each use case; Scheduling is the
--    storing half of crates/domain/src/task/scheduler.rs. A child of a use case is about its results.
--  - Worker/Handlers, Worker/Consumer, Worker/Periodic: crates/worker/src, with the requests of
--    crates/infrastructure/src/redis/task_publisher.rs that a poll makes. Worker/Runs follows a row
--    through its runs, and Worker/Periodic/Polls the rows of a poll to the queue. Worker/Loop is the
--    consumer's loop with its slots and its shutdown as a step relation, Worker/Loop/Slots its
--    invariant and Worker/Loop/Drain its end.
--  - Config: crates/infrastructure/src/config.rs, with the environment and the parsing of a number as
--    parameters, and the settings of the S3 clients in bootstrap.rs beside it. Worker/Start: what the
--    main function of crates/worker/src takes from it.
--  - Transcoder/Quality: crates/infrastructure/src/transcoder/quality.rs. Transcoder/Uploader and
--    Transcoder/Uploader/Files: hls_uploader.rs beside it. The uploader's state is a record that also
--    logs its requests with the storage's answers, and counts its notifications; a method is a function
--    on it that may fail; what a tick finds on the disk is its input. Transcoder/Uploader/Rules has the
--    rules for such methods, Justified, Published, Announced and Runs the invariant of the requests,
--    Framed, Held, Drained and Finished what a run has done, Keys that the keys of the tiers are apart
--    from that of the master playlist. Transcoder/Pipeline: the loop
--    on the bus and the race with the uploader in gstreamer.rs beside it. Transcoder/Graph: the
--    construction of the pipeline there, each function as the sequence of its calls that can fail, on a
--    library that answers each; an element has the settings that depend on its level.
--    Transcoder/Graph/Calls says what succeeding calls have done, Branches what the levels then have.
--  - Redis: crates/infrastructure/src/redis, on a server whose documented commands are a parameter.
--    Redis/Holders and Redis/Exclusion follow the holders of locks, Redis/Queue the queue of ids.
--  - Storage: crates/infrastructure/src/storage/s3_client.rs, on a client that is a parameter;
--    Storage/Listing says what is relied on, Storage/Deletion is the loop of `delete_prefix`,
--    Storage/Routing the buckets of the program's keys.
--  - Api: crates/api/src/handlers/video.rs and crates/api/src/middleware.rs; a header is its text, and
--    the ambient trace id is an argument of the use case. Api/Errors, Api/Traces.
--  - System: every statement that a process makes on the tables as a step relation, and the states that
--    it reaches. System/Invariant is about all of them, System/Reaching about the use cases
--    and the consumers as sequences of steps, System/Restart about stale recovery.
--  - Tests: the theorems at concrete inputs.
--
-- Bounds: times are whole nanoseconds without a bound, ids are numbers. The recursions are
-- structural. Only the loop of `delete_prefix` takes fuel, one for each page: as much as the
-- listing has pages to come is enough. The column trace_id is VARCHAR(32) as in the schema; the
-- other columns have no length, since the code bounds what it writes to them. The two statements
-- of a poll are one step of the system, since the poller's lock is held around them; the lock's
-- expiry during a poll is outside the model.
--
-- Not modelled: what the elements of the GStreamer pipeline do, the linking of the source's pads
-- when they appear, and the probe, which are calls of that library; the presigned urls of the S3
-- client, which are answers of the environment; routing, CORS and logging of the api; connections
-- and the wiring of the processes, metrics and the timers of the periodic loops.
pub mod Prelude
pub mod Platform
pub mod Video
pub mod Task
pub mod Db
pub mod Effects
pub mod UseCases
pub mod Config
pub mod Worker
pub mod Transcoder
pub mod Redis
pub mod Storage
pub mod Api
pub mod System
pub mod Tests
