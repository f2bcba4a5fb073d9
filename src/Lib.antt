-- ===== src/Lib.antt =====
-- dreamscroll: the task core of the server.
--
-- The program keeps captures, has language models illuminate them, and indexes the results. The
-- work is done by background tasks. A task is submitted, its run is recorded in the table
-- `task_runs`, a queue delivers the run to a webhook, and the webhook does the work between
-- `begin_attempt` and `finish_attempt`, which record the run's status. Every status write is
-- published to the clients.
--
-- The modules and the code that they model:
--   Base               shared names; Base/Words.antt has `i32` as a bit pattern, additions wrap
--   Base/Int           signed numbers, for durations
--   Base/Decimal       the decimal print of an `i32`, and `str::parse`
--   OneShotQueue       src/common/oneshotqueue.rs
--   Error              src/api/apierror.rs
--   Auth               src/auth/authuser.rs, src/auth/context.rs; Auth/Jwt src/auth/jwt.rs
--   Task/Status        src/task/taskrunstatus.rs
--   Task/Definition    src/task/task_def.rs
--   Task/Kinds         the tasks of src/logic/illuminate.rs, spark.rs and search_index.rs
--   Task/Row           src/model/task_run.rs, the row and its unique keys
--   Task/Table         what statements can do to the table, and its invariants
--   Task/Database      the database as an environment that executes or fails statements
--   Task/Timing        src/task/timing.rs, the samples and the aggregates
--   Task/Publisher     src/task/statuspublisher.rs and the statements of src/task/timing.rs
--   Task/Tracker       src/task/taskruntracker.rs
--   Task/Master        src/task/taskmaster.rs; Task/Master/Expected has the numbers of runs and
--                      attempts in plain integers
--   Task/LocalQueue    src/task/taskqueue_local.rs
--   Task/Catchup       src/task/statuscatchup.rs
--   Sse/Event          src/sse/event.rs
--   Logic/Beacon       src/logic/beacon.rs
--   Logic/Illuminate   `exec` of src/logic/illuminate.rs, over Api/Service
--   Webhook            src/webhook/r_illuminate.rs, r_spark.rs, r_search_index.rs and
--                      http_status_for_task_run.rs
--   Backfill           src/backfill/: Definition has the trait, its one workload and the types,
--                      Engine the pump of engine.rs
--   Sse/Listener       src/sse/listener.rs
--   Sse/Http           src/sse/http.rs
--   Webui/Events       src/webui/v2/r_events.rs
--   Search             src/search/capture_searcher.rs, with the object ids of
--                      src/search/capture_data_object.rs: ObjectId, Hits, Searcher
--   Api/Service        src/api/service/: Store has the tables, statements and transactions,
--                      Projection and Records insert_illumination.rs, and Records
--                      record_inference.rs
--   Api/Captures       src/api/user/delete_capture.rs and archive_capture.rs
--   Examples           inputs for the theorems, and tests
--
-- State and operations. The state of the task core is the record `World` of Task/Database.antt: the
-- table of runs, the table of aggregates, the published events, the observations of backfills, the
-- captures' ids and owners, the clock, and the environment. An operation is a function from a world
-- to a result and a world, so what was written before an error stays written. One SQL statement is
-- one atomic step. Its fate is chosen by the environment, a function from the number of the
-- statement: executed, refused, or executed without an answer. `Step` of Task/Table.antt is one
-- statement's effect on the table of runs, and `Reach` any sequence of them.
--
-- The loops of the fan-out and of a stream are functions of the list of their turns: what `select!`
-- found ready in each. The tables of captures and illuminations have a state of their own, `Db` of
-- Api/Service/Store.antt, whose statements fail in the same ways; a transaction works on it and puts
-- the tables back when it fails.
--
-- Parameters: JSON and its decoders, the JWT library, the search backends, the Markdown of an illumination, the
-- models' answers and the loading of captures for an illumination, the
-- aggregates of the database (`summarize`), the HTTP library's test of a 5xx status
-- (`is_server_error`), the serialization of a task, UUIDs, queue backends, the work of a task, the
-- database's order of task types, and the formats of times, quoted strings and error messages that
-- a pump reports.
--
-- A text is its list of code points, a time a number of microseconds, JSON its text, and an
-- `anyhow::Error` its message. The order in which unique indexes are checked is run id, run number,
-- backfill. The ids of illuminations and of inference metadata end at 2 ^ 31 - 1. The limit of a pump
-- is any natural number. The abort of a local queue's dispatcher takes effect at once, and not at
-- its next await. Integers of 32 bits are bit patterns, and additions wrap, as in a release build. No
-- function of the development runs on fuel but the decimal printer of Base/Decimal.antt: ten
-- rounds are enough for a number below 10 ^ 10.
--
-- Not modelled: log lines, HTTP framing, JSON encoding, the reports `status` and `failures` of
-- src/backfill/engine.rs, the language models' clients, the work of
-- sparks and of search indexing, the vector store, storage, the web pages, the
-- command-line tools and the schema synchronization.
pub mod Base
pub mod Error
pub mod Auth
pub mod OneShotQueue
pub mod Task
pub mod Sse
pub mod Logic
pub mod Webhook
pub mod Backfill
mod Examples
pub mod Search
pub mod Webui
pub mod Api
