-- ===== src/Worker/Handle/Totals.antt =====
-- While Redis works, a job comes to its end: it is acknowledged unless the infrastructure was at fault
-- (`_handle` of services/worker/worker_app/main.py).
use vulnscan.Base.{ℕ, ◌+◌, String, Bool, true, false, Option, none, some, List, [], ◌∷◌, ◌≡◌}
use vulnscan.Risk.Model.{is_terminal}
use vulnscan.Scan.Model.{ScanJob}
use vulnscan.Scan.Process.{ScanResult}
use vulnscan.Worker.Failures.{Error, Attempt, should_retry, crashed_on_content}
use vulnscan.Worker.Redis.{Effect, continue, Ended}
use vulnscan.Worker.Works.{
  calm, Works, Returned, by_calm, Stands, by_answer, by_error, attempted-Returned, pure-Works,
  write-Works, read-Works, bind-Works, finally-Works, if-Works,
}
use vulnscan.Worker.Notify.{Env, result_ttl_s}
use vulnscan.Worker.Deliver.Totals.{
  enqueue_callback-Works, enqueue_delivery-Works, publish-Works, deliver-Works, dead_letter-Works,
}
use vulnscan.Worker.Handle.{
  Outcome, answered, broke, killed, Run, report_all, end_with, run_pipeline, pass_on, give_up,
  on_error, conclude, try_scan, scan_after, scan_anew, handle_after, handle_kept, handle,
}

-- The process outlives the run of the pipeline.
abbrev pub is_killed : Outcome → Bool
is_killed killed = true
is_killed _ = false

pub report_all-Works : (s : String) (n : ℕ) (ss : List String) → Works (report_all s n ss)
unfolding report_all
report_all-Works s n [] = pure-Works
report_all-Works s n (t ∷ ts) = bind-Works (write-Works _) (λ u. report_all-Works s n ts)

run_pipeline-Stands :
    (run : Run) (job : ScanJob) (n : ℕ) (l : List Effect)
    → is_killed run.outcome ≡ false
    → Stands (run_pipeline run job n (calm l))
unfolding run_pipeline
run_pipeline-Stands run job n l h =
    stands ((report_all-Works job.scan_id n run.stages).returns l) run.outcome h
  where
    stands :
        {r : Ended (Unit {0})}
        → Returned r
        → (o : Outcome) → is_killed o ≡ false
        → Stands (continue r (λ u. end_with o))
    stands by_calm (answered r) h = by_answer
    stands by_calm (broke e) h = by_error
    stands by_calm killed h = cc

module _ (env : Env) (entry : String) (job : ScanJob) where
  pass_on-Works : (r : ScanResult) → Works (pass_on env entry job r)
  unfolding pass_on
  pass_on-Works r = bind-Works (publish-Works env job r result_ttl_s) (λ u.
      bind-Works (enqueue_callback-Works env job r) (λ u.
        bind-Works (enqueue_delivery-Works env job r)
          (λ u. bind-Works (write-Works _) (λ u. pure-Works))))

  give_up-Works : (previous : Attempt) → Works (give_up env entry job previous)
  unfolding give_up
  give_up-Works previous = bind-Works (write-Works _) (λ u.
      bind-Works (dead_letter-Works env job _ _ _ _)
        (λ u. bind-Works (write-Works _) (λ u. pure-Works)))

  on_error-Works : (exc : Error) → Works (on_error env entry job exc)
  unfolding on_error
  on_error-Works exc = bind-Works (write-Works _) (λ u. if-Works (should_retry exc) pure-Works (
      bind-Works (dead_letter-Works env job _ _ _ _)
        (λ u. bind-Works (write-Works _) (λ u. pure-Works))))

  conclude-Works : (r : ScanResult) → Works (conclude env job r)
  unfolding conclude
  conclude-Works r =
      bind-Works (write-Works _)
        (λ u. bind-Works (deliver-Works env job r result_ttl_s) (λ u. pure-Works))

  module _ (run : Run) (alive : is_killed run.outcome ≡ false) where
    try_scan-Works : (n : ℕ) → Works (try_scan env run entry job n)
    unfolding try_scan
    try_scan-Works n = bind-Works (write-Works _) (λ u. record {
      returns = λ l.
          attempted-Returned (run_pipeline-Stands run job n l alive) on_error-Works conclude-Works;
    })

    scan_after-Works : (previous : Option Attempt) → Works (scan_after env run entry job previous)
    unfolding scan_after
    scan_after-Works none = try_scan-Works 1
    scan_after-Works (some previous) =
        if-Works (crashed_on_content previous env.max_parser_crashes) (give_up-Works previous)
          (try_scan-Works (previous.attempt + 1))

    scan_anew-Works : Works (scan_anew env run entry job)
    unfolding scan_anew
    scan_anew-Works = bind-Works (read-Works _) scan_after-Works

    handle_after-Works :
        (completed : Option ScanResult) → Works (handle_after env run entry job completed)
    unfolding handle_after
    handle_after-Works none = scan_anew-Works
    handle_after-Works (some r) = if-Works (is_terminal r.status) (pass_on-Works r) scan_anew-Works

    pub handle-Works : Works (handle env run entry job)
    unfolding handle handle_kept
    handle-Works = bind-Works (write-Works _) (λ u.
        bind-Works (finally-Works (bind-Works (read-Works _) handle_after-Works) (write-Works _))
          (λ b. if-Works b (write-Works _) pure-Works))
