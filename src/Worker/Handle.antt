-- ===== src/Worker/Handle.antt =====
-- One job in the hands of the worker: `_handle` and `_abandon` of services/worker/worker_app/main.py.
use Prim.Native.String.{◌++◌ as append}
use vulnscan.Base.{
  ℕ, ◌+◌, String, Bool, true, false, Option, none, some, List, [], ◌∷◌, if◌then◌else◌,
}
use vulnscan.Risk.Model.{is_terminal}
use vulnscan.Scan.Model.{ScanJob}
use vulnscan.Scan.Process.{ScanResult}
use vulnscan.Notifier.Model.{job_abandoned, parser_crash, scan_failed}
use vulnscan.Worker.Failures.{Error, Attempt, should_retry, crashed_on_content}
use vulnscan.Worker.Redis.{
  Act, pure, ◌>>=◌, raised, died, read, write, attempt, finally, status_in, attempt_in, beat, clear,
  ack, set_attempt, drop_attempt,
}
use vulnscan.Worker.Deliver.{publish, deliver, dead_letter}
use vulnscan.Worker.Notify.{Env, result_ttl_s, enqueue_callback, enqueue_delivery}
pub mod Acks
pub mod Laws
pub mod Pipeline
pub mod Totals
pub mod Ends
pub mod Marks
pub mod Crashes
pub mod Retries
pub mod Slots
pub mod Finished
pub mod Queues
pub mod Writes

-- How `Pipeline.process` ends: with a result, with an exception, or with the death of the process.
pub data Outcome : Type 0 where
  answered : ScanResult → Outcome
  broke : Error → Outcome
  killed : Outcome

-- A run of the pipeline as the worker sees it: the stages that it reports, and its end.
pub record Run : Type 0 where
  pub stages : List String
  pub outcome : Outcome

-- `report` at each stage: `AttemptJournal.mark`
unfoldable pub report_all : String → ℕ → List String → Act (Unit {0})
unfolding write
report_all scan_id n [] = pure tt
report_all scan_id n (s ∷ ss) = do
  _ ← write (set_attempt (record { scan_id = scan_id; attempt = n; stage = s }))
  report_all scan_id n ss

abbrev pub end_with : Outcome → Act ScanResult
end_with (answered r) = pure r
end_with (broke e) = raised e
end_with killed = died

-- `await self._pipeline.process(job, on_stage=report, ...)`
unfoldable pub run_pipeline : Run → ScanJob → ℕ → Act ScanResult
run_pipeline run job n = do _ ← report_all job.scan_id n run.stages; end_with run.outcome

-- The job whose result is there already: the pipeline does not run again, the result is passed on.
unfoldable pub pass_on : Env → String → ScanJob → ScanResult → Act Bool
unfolding write
pass_on env entry job completed = do
  _ ← publish completed result_ttl_s
  _ ← enqueue_callback env job completed
  _ ← enqueue_delivery env job completed
  _ ← write (ack entry)
  pure false

-- The job whose last attempt died inside the parsing of the file.
unfoldable pub give_up : Env → String → ScanJob → Attempt → Act Bool
unfolding write
give_up env entry job previous = do
  _ ← write (drop_attempt job.scan_id)
  _ ←
      dead_letter env job parser_crash (append "процесс оборвался на стадии " previous.stage)
        (some previous.stage) (some previous.attempt)
  _ ← write (ack entry)
  pure false

-- The job whose file caused the error.
abbrev pub close : Env → String → ScanJob → Error → Act Bool
close env entry job exc = do
  _ ← dead_letter env job scan_failed exc.name none none
  _ ← write (ack entry)
  pure false

-- `except Exception as exc`
unfoldable pub on_error : Env → String → ScanJob → Error → Act Bool
unfolding write should_retry
on_error env entry job exc = do
  _ ← write (drop_attempt job.scan_id)
  if should_retry exc then pure false else close env entry job exc

-- `else`, and the delivery after it.
unfoldable pub conclude : Env → ScanJob → ScanResult → Act Bool
unfolding write
conclude env job result = do
  _ ← write (drop_attempt job.scan_id)
  _ ← deliver env job result result_ttl_s
  pure true

-- The attempt itself; it answers `true`, for the acknowledgement at the end of the handler.
unfoldable pub try_scan : Env → Run → String → ScanJob → ℕ → Act Bool
unfolding write
try_scan env run entry job n = do
  _ ← write (set_attempt (record { scan_id = job.scan_id; attempt = n; stage = "fetch" }))
  attempt (run_pipeline run job n) (on_error env entry job) (conclude env job)

-- With what the journal has of the job.
unfoldable pub scan_after : Env → Run → String → ScanJob → Option Attempt → Act Bool
unfolding crashed_on_content
scan_after env run entry job none = try_scan env run entry job 1
scan_after env run entry job (some previous) =
    if crashed_on_content previous env.max_parser_crashes
    then give_up env entry job previous
    else try_scan env run entry job (previous.attempt + 1)

unfoldable pub scan_anew : Env → Run → String → ScanJob → Act Bool
unfolding read
scan_anew env run entry job = do
  previous ← read (attempt_in job.scan_id)
  scan_after env run entry job previous

-- With the status that the job has.
unfoldable pub handle_after : Env → Run → String → ScanJob → Option ScanResult → Act Bool
unfolding is_terminal
handle_after env run entry job none = scan_anew env run entry job
handle_after env run entry job (some completed) =
    if is_terminal completed.status
    then pass_on env entry job completed
    else scan_anew env run entry job

-- What stands under `async with self._heartbeat.keep(...)`.
unfoldable pub handle_kept : Env → Run → String → ScanJob → Act Bool
unfolding read
handle_kept env run entry job = do
  completed ← read (status_in job.scan_id)
  handle_after env run entry job completed

-- `_handle`
unfoldable pub handle : Env → Run → String → ScanJob → Act (Unit {0})
unfolding write
handle env run entry job = do
  _ ← write (beat entry)
  to_ack ← finally (handle_kept env run entry job) (write (clear entry))
  if to_ack then write (ack entry) else pure tt

-- `_abandon`
unfoldable pub abandon : Env → String → ScanJob → ℕ → Act (Unit {0})
unfolding write
abandon env entry job delivered = do
  _ ← write (drop_attempt job.scan_id)
  _ ← dead_letter env job job_abandoned "превышен лимит повторных доставок" none (some delivered)
  write (ack entry)
