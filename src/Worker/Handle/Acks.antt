-- ===== src/Worker/Handle/Acks.antt =====
-- When the worker acknowledges a job (`_handle` and `_abandon` of services/worker/worker_app/main.py).
use vulnscan.Base.{ℕ, String, true, false, List, ◌≡◌}
use vulnscan.Scan.Model.{ScanJob}
use vulnscan.Worker.Redis.{Effect, Redis, Ended, is_acked}
use vulnscan.Worker.Logic.{Leaves, by_return, by_raise, by_death}
use vulnscan.Worker.Notify.{Env}
use vulnscan.Worker.Deliver.Status.{has_status}
use vulnscan.Worker.Handle.{Run, handle, abandon}
use vulnscan.Worker.Handle.Laws.{log_of, IsAbout, handle-Triple, abandon-Triple}

-- The condition of the end, at the log of the end.
pub at_end {ℓ} :
    {A : Type ℓ} {S : List Effect → Type 0} {r : Ended A} → Leaves (λ a. S) S r → S (log_of r)
at_end (by_return x) = x
at_end (by_raise x) = x
at_end (by_death x) = x

-- However the calls of Redis and the run of the pipeline end, an entry that was not acknowledged before
-- the handling of its job is acknowledged after it only if a status of the scan is stored. The
-- result that a run of the pipeline answers is one of this scan.
pub handle-acked :
    (env : Env) (run : Run) (entry : String) (job : ScanJob) (w : Redis)
    → IsAbout job.scan_id run.outcome
    → is_acked entry w.log ≡ false
    → is_acked entry (log_of (handle env run entry job w)) ≡ true
    → has_status job.scan_id (log_of (handle env run entry job w)) ≡ true
handle-acked env run entry job w h fresh =
    at_end ((handle-Triple env entry job run h).runs w (λ k. cc))

-- The same of a job that has been given out too often.
pub abandon-acked :
    (env : Env) (entry : String) (job : ScanJob) (delivered : ℕ) (w : Redis)
    → is_acked entry w.log ≡ false
    → is_acked entry (log_of (abandon env entry job delivered w)) ≡ true
    → has_status job.scan_id (log_of (abandon env entry job delivered w)) ≡ true
abandon-acked env entry job delivered w fresh =
    at_end ((abandon-Triple env entry job delivered).runs w (λ k. cc))
