-- ===== src/Worker/Handle/Finished.antt =====
-- A job that comes again after its end (`_handle` of services/worker/worker_app/main.py).
use vulnscan.Base.{String, true, some, List, [], ◌∷◌, ◌≡◌, refl}
use vulnscan.Risk.Model.{is_terminal}
use vulnscan.Scan.Model.{ScanJob}
use vulnscan.Scan.Process.{ScanResult}
use vulnscan.Worker.Redis.{
  Effect, beat, Fault, works, fails, loses, dies, Redis, ask_with, read, write, status_in,
}
use vulnscan.Worker.Notify.{Env}
use vulnscan.Worker.Handle.{Run, handle_after, handle_kept, handle}

module _ (env : Env) (run other : Run) (entry : String) (job : ScanJob) (r : ScanResult)
    (over : is_terminal r.status ≡ true) where
  handle_kept-same :
      (plan : List Fault) (l : List Effect)
      → status_in job.scan_id l ≡ some r
      → handle_kept env run entry job (record { log = l; plan = plan })
        ≡ handle_kept env other entry job (record { log = l; plan = plan })
  unfolding handle_kept handle_after read ask_with
  handle_kept-same [] l h = rw (h, over) refl
  handle_kept-same (works ∷ plan) l h = rw (h, over) refl
  handle_kept-same (fails ∷ plan) l h = refl
  handle_kept-same (loses ∷ plan) l h = refl
  handle_kept-same (dies ∷ plan) l h = refl

  handle-same_run :
      (plan : List Fault) (l : List Effect)
      → status_in job.scan_id l ≡ some r
      → handle env run entry job (record { log = l; plan = plan })
        ≡ handle env other entry job (record { log = l; plan = plan })
  unfolding handle write ask_with status_in
  handle-same_run [] l h = rw (handle_kept-same [] (beat entry ∷ l) h) refl
  handle-same_run (works ∷ plan) l h = rw (handle_kept-same plan (beat entry ∷ l) h) refl
  handle-same_run (fails ∷ plan) l h = refl
  handle-same_run (loses ∷ plan) l h = refl
  handle-same_run (dies ∷ plan) l h = refl

-- The handling of a job whose scan has a terminal status does not depend on what the pipeline would do: it
-- ends the same way, with the same writes, whichever run is given.
pub handle-finished :
    (env : Env) (run other : Run) (entry : String) (job : ScanJob) (r : ScanResult) (w : Redis)
    → status_in job.scan_id w.log ≡ some r
    → is_terminal r.status ≡ true
    → handle env run entry job w ≡ handle env other entry job w
handle-finished env run other entry job r w h over =
    handle-same_run env run other entry job r over w.plan w.log h
