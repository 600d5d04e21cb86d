-- ===== src/Worker/Handle/Writes.antt =====
-- What the handling of a job writes (`_handle` of services/worker/worker_app/main.py): the queues that it
-- may and may not put tasks in.
use vulnscan.Base.{
  ℕ, ◌+◌, String, Bool, true, not, ◌||◌, Option, none, some, List, [], ◌∷◌, str_eq, eq_refl, ◌≡◌,
  refl, arith,
}
use vulnscan.Risk.Model.{is_terminal}
use vulnscan.Scan.Model.{ScanJob}
use vulnscan.Scan.Process.{ScanResult, is_strict}
use vulnscan.Notifier.Model.{DeadLetterReason}
use vulnscan.Worker.Failures.{Error, Attempt, should_retry, crashed_on_content}
use vulnscan.Worker.Redis.{
  Effect, beat, clear, ack, set_status, signal, set_attempt, drop_attempt, bury, push_callback,
  push_delivery, push_deep, keep_history, put_structural, put_av, note_shadow, release, Act,
}
use vulnscan.Worker.Emits.{
  Emits, pure-Emits, raised-Emits, died-Emits, write-Emits, read-Emits, bind-Emits, attempt-Emits,
  finally-Emits, if-Emits, Emits-weaken,
}
use vulnscan.Worker.Deliver.{deliver, dead_result, dead_letter}
use vulnscan.Worker.Notify.{Env, result_ttl_s}
use vulnscan.Worker.Deliver.Copies.{
  may_tell, publish-Emits, enqueue_callback-Emits, enqueue_delivery-Emits,
}
use vulnscan.Worker.Deliver.Writes.{may_write, may_tell-may_write, deliver-Emits}
use vulnscan.Worker.Handle.{
  Outcome, answered, broke, killed, Run, report_all, end_with, run_pipeline, pass_on, give_up,
  on_error, conclude, try_scan, scan_after, scan_anew, handle_after, handle_kept, handle,
}

-- Of the copies, those rebuilt from a blocked file want the strict policy; only a job of the fast role
-- sends a file to the deep one; and only the job's own entry is acknowledged.
abbrev pub may_handle : String → ScanJob → Effect → Bool
may_handle entry job (push_delivery task) =
    not task.rebuilt_from_blocked || is_strict job.policy.deliver_blocked
may_handle entry job (push_deep deep) = not job.deep
may_handle entry job (ack e) = str_eq e entry
may_handle entry job _ = true

may_write-may_handle :
    (entry : String) (job : ScanJob) (result : ScanResult) (e : Effect)
    → may_write job result e ≡ true
    → may_handle entry job e ≡ true
may_write-may_handle entry job result (beat x) h = refl
may_write-may_handle entry job result (clear x) h = refl
may_write-may_handle entry job result (ack x) h = cc
may_write-may_handle entry job result (set_status x y) h = refl
may_write-may_handle entry job result (signal x) h = refl
may_write-may_handle entry job result (set_attempt x) h = refl
may_write-may_handle entry job result (drop_attempt x) h = refl
may_write-may_handle entry job result (bury x) h = refl
may_write-may_handle entry job result (push_callback x) h = refl
may_write-may_handle entry job result (push_delivery x) h = ground arith
may_write-may_handle entry job result (push_deep x) h = h
may_write-may_handle entry job result (keep_history x) h = refl
may_write-may_handle entry job result (put_structural x y) h = refl
may_write-may_handle entry job result (put_av x) h = refl
may_write-may_handle entry job result (note_shadow x) h = refl
may_write-may_handle entry job result (release x y) h = refl

module _ (env : Env) (run : Run) (entry : String) (job : ScanJob) where
  abbrev May : {A : Type 0} → Act A → Type 0
  May = Emits (may_handle entry job)

  deliver-May : (r : ScanResult) (ttl_s : ℕ) → May (deliver env job r ttl_s)
  deliver-May r ttl_s =
      Emits-weaken (may_write-may_handle entry job r) (deliver-Emits env job r ttl_s)

  told : {A : Type 0} {m : Act A} (r : ScanResult) → Emits (may_tell job r) m → May m
  told r h =
      Emits-weaken (λ e k. may_write-may_handle entry job r e (may_tell-may_write job r e k)) h

  dead_letter-May :
      (reason : DeadLetterReason) (detail : String) (stage : Option String) (delivered : Option ℕ)
      → May (dead_letter env job reason detail stage delivered)
  unfolding dead_letter
  dead_letter-May reason detail stage delivered =
      bind-Emits (write-Emits _ refl)
        (λ u. deliver-May (dead_result job reason detail) env.dlq_status_ttl_s)

  pass_on-May : (r : ScanResult) → May (pass_on env entry job r)
  unfolding pass_on
  pass_on-May r = bind-Emits (told r (publish-Emits env job r result_ttl_s)) (λ u.
      bind-Emits (told r (enqueue_callback-Emits env job r)) (λ u.
        bind-Emits (told r (enqueue_delivery-Emits env job r))
          (λ u. bind-Emits (write-Emits _ (eq_refl entry)) (λ u. pure-Emits))))

  give_up-May : (previous : Attempt) → May (give_up env entry job previous)
  unfolding give_up
  give_up-May previous = bind-Emits (write-Emits _ refl) (λ u.
      bind-Emits (dead_letter-May _ _ _ _)
        (λ u. bind-Emits (write-Emits _ (eq_refl entry)) (λ u. pure-Emits)))

  on_error-May : (exc : Error) → May (on_error env entry job exc)
  unfolding on_error
  on_error-May exc = bind-Emits (write-Emits _ refl) (λ u.
      if-Emits (should_retry exc) (λ h. pure-Emits)
        (λ h.
          bind-Emits (dead_letter-May _ _ _ _)
            (λ u. bind-Emits (write-Emits _ (eq_refl entry)) (λ u. pure-Emits))))

  conclude-May : (r : ScanResult) → May (conclude env job r)
  unfolding conclude
  conclude-May r =
      bind-Emits (write-Emits _ refl)
        (λ u. bind-Emits (deliver-May r result_ttl_s) (λ u. pure-Emits))

  report_all-May : (n : ℕ) (ss : List String) → May (report_all job.scan_id n ss)
  unfolding report_all
  report_all-May n [] = pure-Emits
  report_all-May n (t ∷ ts) = bind-Emits (write-Emits _ refl) (λ u. report_all-May n ts)

  end_with-May : (o : Outcome) → May (end_with o)
  end_with-May (answered r) = pure-Emits
  end_with-May (broke e) = raised-Emits
  end_with-May killed = died-Emits

  try_scan-May : (n : ℕ) → May (try_scan env run entry job n)
  unfolding try_scan run_pipeline
  try_scan-May n = bind-Emits (write-Emits _ refl) (λ u.
      attempt-Emits (bind-Emits (report_all-May n run.stages) (λ u. end_with-May run.outcome))
        on_error-May conclude-May)

  scan_after-May : (previous : Option Attempt) → May (scan_after env run entry job previous)
  unfolding scan_after
  scan_after-May none = try_scan-May 1
  scan_after-May (some previous) =
      if-Emits (crashed_on_content previous env.max_parser_crashes) (λ h. give_up-May previous)
        (λ h. try_scan-May (previous.attempt + 1))

  scan_anew-May : May (scan_anew env run entry job)
  unfolding scan_anew
  scan_anew-May = bind-Emits (read-Emits _) scan_after-May

  handle_after-May :
      (completed : Option ScanResult) → May (handle_after env run entry job completed)
  unfolding handle_after
  handle_after-May none = scan_anew-May
  handle_after-May (some r) =
      if-Emits (is_terminal r.status) (λ h. pass_on-May r) (λ h. scan_anew-May)

  pub handle-May : May (handle env run entry job)
  unfolding handle handle_kept
  handle-May = bind-Emits (write-Emits _ refl) (λ u.
      bind-Emits (finally-Emits (bind-Emits (read-Emits _) handle_after-May) (write-Emits _ refl))
        (λ b. if-Emits b (λ h. write-Emits _ (eq_refl entry)) (λ h. pure-Emits)))
