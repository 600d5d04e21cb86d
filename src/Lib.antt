-- ===== src/Lib.antt =====
-- A model of vulnscan, a service that scans files people upload, rebuilds them into harmless copies
-- and tells its clients what it found. What is modelled is the core: how findings become a verdict,
-- how an archive is taken apart within its limits, and how the worker takes a file through its stages
-- to an answer.
--
-- The parts, and where they stand:
--
-- * Base is shared: Boolean tests on the native ℕ, lists, and Python's dict and set as lists.
-- * Risk is the Risk Engine. Risk/Model has the enums, `Finding`, `ScanFacts` with `merge`, and
--   `TenantPolicy` (packages/vscommon/models.py). Risk/Weights and Risk/Families have the table of
--   weights, the tenant's overrides, the loading of the file and the families of correlated findings
--   (packages/vscommon/weights.py). Risk/Score and Risk/Verdicts have `score_of`, `verdict_of`,
--   `apply_failure` and `should_stop_early` (packages/vscommon/scoring.py).
-- * Archive is the inventory of a ZIP file (services/worker/worker_app/archive.py, with the limits of
--   packages/vscommon/limits.py): Archive/Names has `escapes_root` and `safe_name`, Archive/Inspect has
--   `inspect`, Archive/Extract has `open_archive` and `extract`.
-- * Scan is the worker's pipeline. Scan/Context has `ScanContext` with `add`, `adopt` and `facts`
--   (services/worker/worker_app/stages/base.py) and the report of an archive
--   (services/worker/worker_app/stages/archive_structure.py). Scan/Stages has `safe_run` and
--   `_run_stages`, Scan/Members has `analyse`, `_expand` and `_scan_members`, Scan/Process has
--   `process`, `_process_full`, `_process_av_only` and `_sanitize`
--   (services/worker/worker_app/pipeline.py).
-- * Notifier is the delivery of results and copies (services/notifier/notifierapp/main.py, with the tasks
--   of packages/vscommon/models.py): Notifier/Callbacks has `_attempt`, `_reschedule` and `_give_up`,
--   Notifier/Copies has `_deliver`, `_put`, `_retry_delivery` and `_delivery_failed`.
-- * Limits is what bounds the use of the service: Limits/Quota has `DailyQuota.spend`
--   (packages/vscommon/quota.py), Limits/Rate has `RateLimiter.check` (packages/vscommon/ratelimit.py),
--   Limits/Addresses has `validate_callback` (packages/vscommon/callbacks.py). Limits/Counters is what the
--   first two need of Redis, an interface that a dict of counters fills.
--
-- * Cache is the two levels of the result cache (packages/vscommon/cache.py, with `_store_cache` of
--   services/worker/worker_app/main.py): what is kept of a result, and the answer put together again.
-- * Worker is the worker's handling of its jobs (services/worker/worker_app/main.py). Worker/Redis has the
--   writes that its queues, channels and journals make (packages/vscommon/queue.py, journal.py) and how a
--   call can end, Worker/Failures the classes of errors (packages/vscommon/errors.py,
--   services/worker/worker_app/failure.py), Worker/Deep the choice of files for the second check
--   (services/worker/worker_app/deep.py), Worker/Notify and Worker/Deliver the delivery of a result,
--   Worker/Handle `_handle` and `_abandon`, Worker/Reclaim the sweep over the jobs of dead workers
--   (services/worker/worker_app/reclaim.py). Worker/Logic, Worker/Emits and Worker/Works are rules for
--   handlers: what holds of the log at each end, what is written at most, and what happens while
--   Redis works.
-- * Queues is the reading of the dead letters, page by page (packages/vscommon/queue.py).
--
-- How they interact: the stages report codes to the context, the context asks the weight table what a
-- code weighs, the Risk Engine judges the facts of the context after every stage (the early exit) and
-- at the end (the verdict), and the members of an archive go through the same stages, with what they
-- show carried over to the archive. The worker's handler takes the run of the pipeline as its stages and its
-- end, and hands the result to the cache and to the queues of the notifier.
--
-- What the worker does to Redis is a log of writes, and what it reads is computed from the log. Every call
-- takes its end from a plan: it works, it fails without or with its effect, or the process dies. A handler
-- returns, raises or dies, so that a theorem about a handler covers every point at which it can be cut off.
--
-- How the code is written here. A mutated object is passed on: an operation returns the new context,
-- inventory or budget. The budget of a tree of archives and the notes of the weight table are one
-- object that all contexts share; the container takes them back from each member. An exception is a
-- value: `raised` is an
-- `ArchiveError` and `thrown` any other in Archive/Extract, `threw` leaves an operation on a context,
-- `escaped` leaves the pipeline. Weights are
-- integers, because neither the file of weights nor a policy bounds them, and a finding's score is a
-- natural number up to 100, because `Finding` refuses anything else: `add` then throws. A set of texts
-- is a list of them, and the ratio of an archive is compared without the division.
--
-- Bounds and fuel. The recursion into archives, which the source bounds by the depth of 4, runs here
-- on fuel, of which 6 is proved to be enough for a file that was uploaded. The life
-- of a callback runs on fuel too, and as many rounds as attempts are allowed are proved to be enough, as
-- is one round more than there are dead letters for the loop over their pages. Everything else is structural recursion over lists and texts.
--
-- What comes in from outside. Redis answers `xrevrange` with the newest entries up to a bound, which is a
-- law of the stream that the reader takes. The JSON of a result and the name of a delivered object are
-- functions that the worker is given. The sweep is given the pending entries, the heartbeats and `claim`,
-- which answers jobs that it was asked for. `zipfile` gives the entries of an archive without its directories, the
-- blocks that reading an entry yields with how the writing of each ends, and how the reading ends; the
-- classes of its exceptions are told apart as far as `open_archive` and `extract` do, and one that
-- neither of them turns into an `ArchiveError` (a damaged BZIP2 or LZMA stream) leaves the pipeline,
-- so the theorems that a pass ends are about archives whose members raise none of these. The clock answers whether the time of
-- a tree is over; Python's character tables say what is printable or a space, and the suffix of a path
-- in lower case and the printing of sizes are functions too. A stage is a name and what it does to a
-- context within its time limit; the theorems ask of it that it only adds to the context, which is
-- proved of the inventory of an archive (Scan/Members/Laws). The rebuilding of a document is an
-- outcome, and the list of trusted files is a function. What a receiver or a client's store answers to
-- the notifier is a value, and its delays are whole seconds, as are
-- the times of requests.
--
-- What is not modelled. The parsers of PDF and Word files, YARA and the antivirus client stand behind
-- the stages. A stage that has run out of time is cut off here, while its thread goes on in the
-- source. The loops of the worker and of the notifier over their queues, the limit of parallel scans, the gateway, the stores and the metrics are not here. Keys of Redis do
-- not expire, a heartbeat is not refreshed, and what is stored as JSON is read back as it was, but for
-- the facts that the JSON leaves out. The versions of the engines, the elapsed times and the
-- fingerprints of the tables are left out, as nothing that is proved depends on them.
pub mod Base
pub mod Risk
pub mod Archive
pub mod Scan
pub mod Notifier
pub mod Limits
pub mod Cache
pub mod Worker
pub mod Queues
