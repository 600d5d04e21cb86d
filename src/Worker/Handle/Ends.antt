-- ===== src/Worker/Handle/Ends.antt =====
-- While Redis works, a job is acknowledged unless the infrastructure was at fault (`_handle` of
-- services/worker/worker_app/main.py).
use vulnscan.Base.{
  ℕ, ◌+◌, String, Bool, true, false, not, Option, none, some, List, eq_refl, ◌≡◌, refl, arith,
  if◌then◌else◌,
}
use vulnscan.Risk.Model.{is_terminal}
use vulnscan.Scan.Model.{ScanJob}
use vulnscan.Scan.Process.{ScanResult}
use vulnscan.Worker.Failures.{Error, Attempt, should_retry, crashed_on_content}
use vulnscan.Worker.Redis.{
  Effect, Ended, ask_with, ack, clear, pure, ◌>>=◌, continue, attempted, write, is_acked,
}
use vulnscan.Worker.Works.{
  calm, Returned, by_calm, write-Works, read-Works, Got, got, Gets, bind-Gets, write-Gets, if-Gets,
  then-Got, closed-Got,
}
use vulnscan.Worker.Notify.{Env, result_ttl_s}
use vulnscan.Worker.Deliver.Totals.{
  enqueue_callback-Works, enqueue_delivery-Works, publish-Works, deliver-Works, dead_letter-Works,
}
use vulnscan.Worker.Handle.{
  Outcome, answered, broke, killed, Run, run_pipeline, end_with, pass_on, give_up, on_error,
  conclude, try_scan, scan_after, scan_anew, handle_after, handle_kept, handle,
}
use vulnscan.Worker.Handle.Laws.{log_of}
use vulnscan.Worker.Handle.Totals.{report_all-Works}

-- The run of the pipeline ends with a result, or with an error that no second attempt would mend.
abbrev pub is_final : Outcome → Bool
is_final (answered r) = true
is_final (broke e) = not (should_retry e)
is_final killed = false

module _ (env : Env) (entry : String) (job : ScanJob) where
  abbrev pub Acked : List Effect → Type 0
  Acked l = is_acked entry l ≡ true

  -- Where the answer is no, the entry is acknowledged already.
  abbrev pub Closed : Bool → List Effect → Type 0
  Closed b l = b ≡ false → Acked l

  ack-Acked : Gets (write (ack entry)) (λ u. Acked)
  unfolding is_acked
  ack-Acked = write-Gets _ (λ l. ground (arith, eq_refl entry))

  acked_no : Gets (write (ack entry) >>= (λ u. pure false)) Closed
  acked_no = record { gets = λ l. then-Got _ (ack-Acked.gets l) (λ u k a. got (λ h. a)) }

  pass_on-Closed : (r : ScanResult) → Gets (pass_on env entry job r) Closed
  unfolding pass_on
  pass_on-Closed r = bind-Gets (publish-Works env job r result_ttl_s) (λ u.
      bind-Gets (enqueue_callback-Works env job r)
        (λ u. bind-Gets (enqueue_delivery-Works env job r) (λ u. acked_no)))

  pub give_up-Closed : (previous : Attempt) → Gets (give_up env entry job previous) Closed
  unfolding give_up
  give_up-Closed previous =
      bind-Gets (write-Works _) (λ u. bind-Gets (dead_letter-Works env job _ _ _ _) (λ u. acked_no))

  on_error-Closed :
      (exc : Error) → should_retry exc ≡ false → Gets (on_error env entry job exc) Closed
  unfolding on_error
  on_error-Closed exc h = bind-Gets (write-Works _) (λ u.
      if-Gets (should_retry exc) (λ k. cc)
        (λ k. bind-Gets (dead_letter-Works env job _ _ _ _) (λ u. acked_no)))

  conclude-Closed : (r : ScanResult) → Gets (conclude env job r) Closed
  unfolding conclude
  conclude-Closed r = bind-Gets (write-Works _) (λ u.
      bind-Gets (deliver-Works env job r result_ttl_s) (λ u. record { gets = λ l. got (λ h. cc) }))

  pub last-Acked :
      (b : Bool) (l : List Effect)
      → Closed b l
      → Got (λ u. Acked) ((if b then write (ack entry) else pure tt) (calm l))
  last-Acked true l h = ack-Acked.gets l
  last-Acked false l h = got (h refl)

  pub clear-Closed :
      (b : Bool) (l : List Effect) → Closed b l → Got (λ u. Closed b) (write (clear entry) (calm l))
  unfolding write ask_with is_acked
  clear-Closed b l h = got h

  module _ (run : Run) (is_over : is_final run.outcome ≡ true) where
    attempted-Closed :
        {r : Ended (Unit {0})} (o : Outcome)
        → is_final o ≡ true
        → Returned r
        → Got Closed
            (attempted (continue r (λ u. end_with o)) (on_error env entry job) (conclude env job))
    attempted-Closed (answered r) h by_calm = (conclude-Closed r).gets _
    attempted-Closed (broke e) h by_calm = (on_error-Closed e (ground arith)).gets _
    attempted-Closed killed h by_calm = cc

    try_scan-Closed : (n : ℕ) → Gets (try_scan env run entry job n) Closed
    unfolding try_scan run_pipeline
    try_scan-Closed n = bind-Gets (write-Works _) (λ u. record {
      gets = λ l.
          attempted-Closed run.outcome is_over
            ((report_all-Works job.scan_id n run.stages).returns l);
    })

    scan_after-Closed :
        (previous : Option Attempt) → Gets (scan_after env run entry job previous) Closed
    unfolding scan_after
    scan_after-Closed none = try_scan-Closed 1
    scan_after-Closed (some previous) =
        if-Gets (crashed_on_content previous env.max_parser_crashes) (λ h. give_up-Closed previous)
          (λ h. try_scan-Closed (previous.attempt + 1))

    scan_anew-Closed : Gets (scan_anew env run entry job) Closed
    unfolding scan_anew
    scan_anew-Closed = bind-Gets (read-Works _) scan_after-Closed

    handle_after-Closed :
        (completed : Option ScanResult) → Gets (handle_after env run entry job completed) Closed
    unfolding handle_after
    handle_after-Closed none = scan_anew-Closed
    handle_after-Closed (some r) =
        if-Gets (is_terminal r.status) (λ h. pass_on-Closed r) (λ h. scan_anew-Closed)

    handle_kept-Closed : Gets (handle_kept env run entry job) Closed
    unfolding handle_kept
    handle_kept-Closed = bind-Gets (read-Works _) handle_after-Closed

    handle-Acked : Gets (handle env run entry job) (λ u. Acked)
    unfolding handle
    handle-Acked = bind-Gets (write-Works _) (λ u. record {
      gets = λ l. then-Got _ (closed-Got _ (handle_kept-Closed.gets l) clear-Closed) last-Acked;
    })

pub got_log {ℓ} :
    {A : Type ℓ} {S : List Effect → Type 0} {r : Ended A} → Got (λ a. S) r → S (log_of r)
got_log (got x) = x

-- While Redis works, the handling of a job ends with its entry acknowledged, if the run of the pipeline
-- ends with a result or with an error of the file.
pub handle-done :
    (env : Env) (run : Run) (entry : String) (job : ScanJob) (log : List Effect)
    → is_final run.outcome ≡ true
    → is_acked entry (log_of (handle env run entry job (calm log))) ≡ true
handle-done env run entry job log final = got_log ((handle-Acked env entry job run final).gets log)
