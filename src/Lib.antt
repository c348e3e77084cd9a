-- ===== src/Lib.antt =====
-- VoxBench: a test bench for voice agents. Its control plane stores runs in PostgreSQL, queues them as
-- jobs, and lets workers lease, execute and commit them; a registry resolves the configurations of runs;
-- media code converts audio; observers collect what a voice application reports of itself.
--
-- The parts, and the files that model them:
--
--   src/voxbench/control_plane/job_queue.py, `PostgresRunJobQueue`. JobQueue/Row has the row of
--   `run_jobs` (models.py), the lease and the status, the reasons of the errors, and the checks of
--   arguments; JobQueue/Statements the SQL statements as functions on the list of rows;
--   JobQueue/Operations `enqueue`, `claim`, `heartbeat`, `complete`, `fail` and `get`, each as a function
--   from its arguments, the time and the table to a result with the table after it. JobQueue/Rows,
--   Invariant, Outcomes, Updates, Kept and Order carry the proofs of JobQueue/Claiming, Replies and Enqueue;
--   Replacing has what an operation on a lease makes of a row, and Repository/Finished what a commit makes of it.
--   Alias has the check of aliases that the queue and the worker share.
--
--   src/voxbench/control_plane/run_api.py, `PostgresRunRepository`: Repository has `save_queued_run`,
--   `commit_leased_result` and `get`, on a database of the job table and the stored runs. A run is its
--   id, status, times and failure alias, and a rest of any type for what its child tables hold.
--
--   Leases joins the two: Leases/Steps is the relation of one transaction, by any caller, at any time, on
--   the shared database, and of any number of them. An operation that raises is rolled back and is no
--   step. A token that a claim draws is new among the tokens drawn before (`uuid4`), an id is new in the
--   table. Leases/Rows and Moves say what a step does to one job; Validity, Terminal, Fencing, Holding and
--   Held what follows for all histories.
--
--   src/voxbench/control_plane/run_worker.py: RunWorker is `RunJobWorker`, with what one execution meets
--   (clocks, the execution of the run, the other transactions in between, whether the heartbeats kept the
--   lease) as a record of circumstances; Heartbeat is `_LeaseHeartbeat`, over the rounds that its loop
--   meets (an exception in its thread other than a `RunJobQueueError` is left out); Supervisor is the
--   loop and the thread of `RunWorkerSupervisor`, over the rounds that it meets.
--
--   src/voxbench/registry: Registry/Json has the JSON values, Registry/Merge `deep_merge`,
--   Registry/Resolve the registration and `_resolve_raw`, on fuel of one more than the number of
--   configurations. Registry/Schema has the fields of manifests and configurations (schemas.py) that
--   Registry/Validate, the cross-field validation, reads. The JSON schema validator is a parameter, and
--   so is `!=` on JSON values.
--
--   src/voxbench/telephony/audiosocket.py: Telephony/Frames has `read_frame` and `write_frame`, on the
--   octets that arrive before the stream is closed, and a reader of all frames, on fuel of one more than
--   the number of octets; Telephony/Playback has `PlaybackBuffer`, the loop of
--   `_consume_buffered_sources` and `_bounded_evidence`.
--
--   src/voxbench/media/g711.py: Media/Mulaw, on integers and on octets. `bit_length` halves a number at
--   most as often as the number says. src/voxbench/media/pcm.py: Media/Resampler, the streaming resampler.
--   Its loop has as many rounds as the samples have positions, and every round moves on by one at least.
--
--   src/voxbench/observability/observer.py: Observability/Records has the records, and one type for the
--   errors; Batches the division of a batch; Levels and Pcm what is measured in audio; Observer the state
--   of `VoxBenchObserver` and its operations (Stages: `observe_stage_audio`; Flushing: `flush`);
--   References, Rtp and Tap the references, RTP packets and the adapter of a packet capture. An operation
--   that holds the lock is one function; a flush, which holds it twice, takes what other threads do in
--   between. A transport is given by which of its calls return. Floating-point numbers are of a type `F`
--   with the arithmetic that the code uses (Levels/Floats); the detector of discontinuities compares
--   exact multiples of the full scale. Observer/Observations has histories of observations and flushes,
--   Tap/History those of an adapter.
--
--   src/voxbench/control_plane/run_api.py, the diagnostics of RTP packets: Diagnostics/PacketReading
--   reads packets off the timeline of an observer, and Diagnostics/RtpPackets judges each pair in a stream. A delay is compared as a
--   fraction. The capture health that is joined to a gap is left out.
--
--   src/voxbench/control_plane/audio_session.py: AudioSession has the cookies, with the signature as a
--   parameter and with what the clock and the source of nonces returned as arguments; AudioSession/Config
--   the configuration from environment variables, with the table of Unicode digits as a parameter.
--
--   src/voxbench/verification/aggregation.py: Verification/Scores has the records, of scoring.py as well,
--   Verification/Tallies what is counted of the results of a stage, Verification/Aggregation the
--   aggregation and Verification/Aggregation/Loader the checks of the loader on the values of a report
--   whose fields have their types (the size limit and the reading of JSON are left out). The
--   results of a report are indexed by an association list, and the statistics of floating-point numbers
--   are a record of functions. src/voxbench/verification/regression.py: Verification/Regression, where an
--   assertion that fails is no result.
--
-- Base holds the shared helpers: tests on numbers and texts, lists over the native numbers, selection of
-- rows, texts as code points, decimal numerals, signed integers. Tests holds runs at fixed inputs.
--
-- Conventions: times are microseconds in UTC and a UUID is its number; a text that stands for a UUID is
-- that number, or nothing if it cannot be read. The rows that other transactions have locked are an
-- argument of `claim` (SKIP LOCKED), and `enqueue` reads one table and inserts into another, which other
-- transactions may have changed in between. The database is taken to be available: the errors that wrap
-- an `SQLAlchemyError` appear where a constraint of the schema raises it. A transaction is one step, by
-- the row locks that the statements take.
--
-- Not modelled: the HTTP API, the timelines and the other diagnostics of run_api.py, the child rows of a run,
-- migrations, the storage of recordings, the HTTP client of observers, telephony sessions, providers, the engine harness,
-- the scoring of audio, and the command line.
pub mod Base
pub mod Alias
pub mod AudioSession
pub mod JobQueue
pub mod Repository
pub mod Leases
pub mod RunWorker
pub mod Supervisor
pub mod Heartbeat
pub mod Media
pub mod Observability
pub mod Diagnostics
pub mod Telephony
pub mod Verification
pub mod Registry
mod Tests
