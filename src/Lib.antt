-- ===== src/Lib.antt =====
-- A model of the server of Aprendiendo, a Spanish tutor: what a learner records, the rules that a
-- recording must obey, and the store behind the recording API.
--
-- The parts. An assistant sends a session (`RecordPracticeSessionRequest` of src/model.rs); the
-- server tests it, rule by rule, before it writes anything. A compact session, of turns without
-- numbers, is first turned into such a session by src/tutoring.rs. src/evidence.rs tests the
-- observations and src/activities.rs the activity runs with their items, stimuli and attempts;
-- src/production.rs decides which reviews its evidence supports. Apart from that, a client
-- uploads sound and images through src/practice/mod.rs and asks for their analysis; request
-- handlers and a worker share one SQLite store of uploads, recordings, jobs and spend
-- reservations, `PracticeJobStore`. src/embedded_oauth.rs issues the tokens of the one learner,
-- and src/auth.rs tests those of each request.
--
-- The files.
--   Base        lists, tests, texts and results that the other modules share. A `Result` is
--               `Outcome`; `?` is its bind, `bail!` under a test is `bail_if`.
--   Model       src/model.rs and the types of src/production.rs. An enum is a data type with the
--               same variants; `…_str` is `as_str`, `…_eq` the derived `==`.
--   Evidence    src/evidence.rs, one function per function.
--   Activities  src/activities.rs. Catalog has `activity_spec` and `phase_for_item`, Config the
--               configurations, Stimuli the stimuli, Recording the function
--               `validate_activity_recording` with one function per loop (`check_run`,
--               `check_item`, `check_links`, `check_attempt`). Defaults, Phases, Kinds, Runs,
--               Items, Accepted and Linked prove.
--   Practice    src/practice/mod.rs. Rows has the tables, Jobs, Create, Recordings and Cleanup
--               the methods of the store under their own names, Media the MIME types and managed
--               paths, Requests the tests of requests. Invariant, Cancellation, Claim, Withdrawn,
--               Budget, Idempotency, Paths, Mime and Uploads prove.
--   Production  src/production.rs: Prompts has `prompt_findings`, Classes `attempt_class`,
--               Reviews `review_decision` with the reason codes of Reasons, Validation
--               `validate_evidence`. Eligible and Accepted prove.
--   Tutoring    src/tutoring.rs: Requests has the compact request, Checks the small functions,
--               and Scan, Emit and Expand the loops of `expand`, one function per loop body, with
--               the variables of the loop as a record. Numbers, Slots, Counting, Order, Whole,
--               References and Complete prove.
--   Preferences The preferences of src/production.rs: Patches has `patched`, Stored the row with
--               `update`, `seed` and `resolve`, whose reading and writing statements are apart.
--               Plans has `validate`, Brief `constrain` with its theorem. Concurrent and
--               Conforming prove.
--   Oauth       Server has the handlers of src/embedded_oauth.rs, which share the map of codes,
--               and Verify the tests of tokens of src/auth.rs. Once, Codes, Exchange, Bytes,
--               Tokens, Issued and Refresh prove.
--   Examples modules apply the theorems to concrete data.
--
-- How the code is read. The tables are lists of rows in the order of insertion, and a method maps
-- a store to its result and the store it leaves, also when it fails, since its statements run
-- outside a transaction, except in `finalize_upload`. Each method runs as one step, as it does
-- within a process, where a mutex guards the connection; `finalize_upload` takes the mutex twice,
-- and a second process may run statements between those of a method: what comes of that is
-- modelled only for the preferences, whose update reads at one time and writes at another. A
-- method takes the readings of the clock, a drawn identifier and hashes as arguments. Passwords,
-- PKCE challenges, signatures and the JWT library are parameters. Timestamps are texts that
-- SQLite compares by bytes. Dollars are a type parameter with the operations of `UsdOps`, of
-- which no law is used. What is relied on of the JWT library is the record `IsIssuer`. Integers
-- are natural numbers; the tests of the code bound them, and the one subtraction of `usize`, in
-- `phase_for_item`, and the saturating sum of `finalize_upload` are written out at 64 bits. All
-- functions are structurally recursive on a list or a number, so no fuel is used. The Unicode
-- tables of `to_lowercase` are a parameter. An error is a constructor without its message, and so
-- is a panic on a missing key. A `HashSet` or `HashMap` of numbers is a list, the latest entry
-- first.
--
-- Not modelled: the HTTP handlers and the worker's loop of src/practice/mod.rs, whose effect on
-- the store is the methods'; the tools of src/server.rs; the files that uploads are kept in;
-- src/db.rs, src/workflow.rs, src/taxonomy.rs and src/curriculum.rs; the audits of
-- src/production.rs; floating-point code (src/fsrs_adapter.rs and src/practice/analysis.rs),
-- calls of external services, logs, migrations, scripts and the client in apps.
mod Base
pub mod Model
pub mod Activities
pub mod Evidence
pub mod Practice
pub mod Production
pub mod Tutoring
pub mod Oauth
pub mod Preferences
