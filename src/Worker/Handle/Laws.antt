-- ===== src/Worker/Handle/Laws.antt =====
-- When the worker acknowledges a job (`_handle` and `_abandon` of services/worker/worker_app/main.py).
use vulnscan.Base.{
  ℕ, ◌+◌, String, Bool, true, false, not, Option, none, some, List, [], ◌∷◌, ◌≡◌, refl, ap,
}
use vulnscan.Risk.Model.{is_terminal}
use vulnscan.Scan.Model.{ScanJob}
use vulnscan.Scan.Process.{ScanResult}
use vulnscan.Notifier.Model.{DeadLetterReason}
use vulnscan.Worker.Failures.{Error, Attempt, should_retry, crashed_on_content}
use vulnscan.Worker.Redis.{
  Effect, clear, ack, Ended, returned, raised, died, pure, ◌>>=◌, write, status_in, attempt_in,
}
use vulnscan.Worker.Logic.{
  by_raise, by_death, Triple, map-Triple, if-Triple, bind-Triple, pure-Triple, read-Triple,
  write-Triple, attempted-Leaves, closed-Leaves,
}
use vulnscan.Worker.Emits.{Emits, pure-Emits, write-Emits, bind-Emits}
use vulnscan.Worker.Deliver.{dead_result, dead_letter}
use vulnscan.Worker.Notify.{Env, is_some, result_ttl_s}
use vulnscan.Worker.Deliver.Copies.{publish-Emits, enqueue_callback-Emits, enqueue_delivery-Emits}
use vulnscan.Worker.Deliver.Status.{
  has_status-more, Justified-more, is_ack, Settled, Justified, settles, quiet-Triple,
  keeping-Triple, ack-Triple, deliver-Settled,
}
use vulnscan.Worker.Handle.{
  Outcome, answered, broke, killed, Run, report_all, end_with, run_pipeline, pass_on, give_up,
  on_error, conclude, try_scan, scan_after, scan_anew, handle_after, handle_kept, handle, abandon,
}

-- The log at the end.
abbrev pub log_of {ℓ} : {A : Type ℓ} → Ended A → List Effect
log_of (returned a w) = w.log
log_of (raised e w) = w.log
log_of (died w) = w.log

-- A result that comes is one of the scan.
abbrev pub IsAbout : String → Outcome → Type 0
IsAbout scan_id (answered r) = r.scan_id ≡ scan_id
IsAbout scan_id (broke e) = Unit
IsAbout scan_id killed = Unit

report_all-Emits :
    (s : String) (n : ℕ) (ss : List String) → Emits (λ e. not (is_ack e)) (report_all s n ss)
unfolding report_all
report_all-Emits s n [] = pure-Emits
report_all-Emits s n (t ∷ ts) = bind-Emits (write-Emits _ refl) (λ u. report_all-Emits s n ts)

module _ (env : Env) (entry : String) (job : ScanJob) where
  abbrev Just : List Effect → Type 0
  Just = Justified entry job.scan_id

  abbrev Set : List Effect → Type 0
  Set = Settled entry job.scan_id

  quiet : (e : Effect) → not (is_ack e) ≡ true → Triple Just (write e) (λ u. Just) Just
  quiet e h = quiet-Triple entry job.scan_id (write-Emits e h)

  -- What a handler answers: `true` asks for the acknowledgement.
  abbrev Answer : Bool → List Effect → Type 0
  Answer b l = Just l × (b ≡ true → Set l)

  no_ack : Triple Just (pure false) Answer Just
  no_ack = pure-Triple (λ l j. (j, λ h. cc))

  acked : Triple Set (write (ack entry) >>= (λ u. pure false)) Answer Just
  acked =
      bind-Triple (ack-Triple entry job.scan_id)
        (λ u. pure-Triple (λ l s. (settles entry job.scan_id l s, λ h. s)))

  dead_letter-Settled :
      (reason : DeadLetterReason) (detail : String) (stage : Option String) (delivered : Option ℕ)
      → Triple Just (dead_letter env job reason detail stage delivered) (λ u. Set) Just
  unfolding dead_letter dead_result
  dead_letter-Settled reason detail stage delivered = bind-Triple (quiet _ refl) (λ u.
      deliver-Settled entry job.scan_id env job (dead_result job reason detail) refl
        env.dlq_status_ttl_s)

  give_up-Answer : (previous : Attempt) → Triple Just (give_up env entry job previous) Answer Just
  unfolding give_up
  give_up-Answer previous =
      bind-Triple (quiet _ refl) (λ u. bind-Triple (dead_letter-Settled _ _ _ _) (λ u. acked))

  on_error-Answer : (exc : Error) → Triple Just (on_error env entry job exc) Answer Just
  unfolding on_error
  on_error-Answer exc = bind-Triple (quiet _ refl) (λ u.
      if-Triple (should_retry exc) (λ h. no_ack)
        (λ h. bind-Triple (dead_letter-Settled _ _ _ _) (λ u. acked)))

  end_with-Triple :
      (o : Outcome)
      → IsAbout job.scan_id o
      → Triple Just (end_with o) (λ r l. Just l × (r.scan_id ≡ job.scan_id)) Just
  end_with-Triple (answered r) h = pure-Triple (λ l j. (j, h))
  end_with-Triple (broke e) h = record { runs = λ w j. by_raise j }
  end_with-Triple killed h = record { runs = λ w j. by_death j }

  run_pipeline-Triple :
      (run : Run) (n : ℕ)
      → IsAbout job.scan_id run.outcome
      → Triple Just (run_pipeline run job n) (λ r l. Just l × (r.scan_id ≡ job.scan_id)) Just
  unfolding run_pipeline
  run_pipeline-Triple run n h =
      bind-Triple (quiet-Triple entry job.scan_id (report_all-Emits job.scan_id n run.stages))
        (λ u. end_with-Triple run.outcome h)

  delivered-Answer :
      (r : ScanResult) → r.scan_id ≡ job.scan_id → Triple Just (conclude env job r) Answer Just
  unfolding conclude
  delivered-Answer r h = bind-Triple (quiet _ refl) (λ u.
      bind-Triple (deliver-Settled entry job.scan_id env job r h result_ttl_s)
        (λ u. pure-Triple (λ l s. (settles entry job.scan_id l s, λ k. s))))

  try_scan-Answer :
      (run : Run) (n : ℕ)
      → IsAbout job.scan_id run.outcome
      → Triple Just (try_scan env run entry job n) Answer Just
  unfolding try_scan
  try_scan-Answer run n h = bind-Triple (quiet _ refl) (λ u. record {
    runs = λ w j.
        attempted-Leaves ((run_pipeline-Triple run n h).runs w j) (λ l j. j) on_error-Answer
          (λ r. record { runs = λ w k. (delivered-Answer r k.1).runs w k.0 });
  })

  scan_after-Answer :
      (run : Run) (previous : Option Attempt)
      → IsAbout job.scan_id run.outcome
      → Triple Just (scan_after env run entry job previous) Answer Just
  unfolding scan_after
  scan_after-Answer run none h = try_scan-Answer run 1 h
  scan_after-Answer run (some previous) h =
      if-Triple (crashed_on_content previous env.max_parser_crashes) (λ k. give_up-Answer previous)
        (λ k. try_scan-Answer run (previous.attempt + 1) h)

  scan_anew-Answer :
      (run : Run)
      → IsAbout job.scan_id run.outcome
      → Triple Just (scan_anew env run entry job) Answer Just
  unfolding scan_anew
  scan_anew-Answer run h =
      bind-Triple (read-Triple (attempt_in job.scan_id) (λ l j. j) (λ l j. j))
        (λ previous. scan_after-Answer run previous h)

  pass_on-Answer :
      (completed : ScanResult) → Triple Set (pass_on env entry job completed) Answer Just
  unfolding pass_on
  pass_on-Answer completed =
      bind-Triple (keeping-Triple entry job.scan_id (publish-Emits env job completed result_ttl_s))
        (λ u.
          bind-Triple (keeping-Triple entry job.scan_id (enqueue_callback-Emits env job completed))
            (λ u.
              bind-Triple
                (keeping-Triple entry job.scan_id (enqueue_delivery-Emits env job completed))
                (λ u. acked)))

  handle_after-Answer :
      (run : Run) (completed : Option ScanResult)
      → IsAbout job.scan_id run.outcome
      → Triple
          (λ l. Just l × (status_in job.scan_id l ≡ completed))
          (handle_after env run entry job completed)
          Answer
          Just
  unfolding handle_after
  handle_after-Answer run none h = record { runs = λ w j. (scan_anew-Answer run h).runs w j.0 }
  handle_after-Answer run (some completed) h =
      if-Triple (is_terminal completed.status)
        (λ k. record { runs = λ w j. (pass_on-Answer completed).runs w (ap is_some j.1) })
        (λ k. record { runs = λ w j. (scan_anew-Answer run h).runs w j.0 })

  handle_kept-Answer :
      (run : Run)
      → IsAbout job.scan_id run.outcome
      → Triple Just (handle_kept env run entry job) Answer Just
  unfolding handle_kept
  handle_kept-Answer run h =
      bind-Triple (read-Triple (status_in job.scan_id) (λ l j. j) (λ l j. (j, refl)))
        (λ completed. handle_after-Answer run completed h)

  clear-Answer : (b : Bool) → Triple (Answer b) (write (clear entry)) (λ u. Answer b) Just
  clear-Answer b =
      write-Triple (λ l a. a.0) (λ l a. Justified-more entry job.scan_id (clear entry) l refl a.0)
        (λ l a. (
          Justified-more entry job.scan_id (clear entry) l refl a.0,
          λ h. has_status-more job.scan_id (clear entry) l (a.1 h),
        ))

  pub handle-Triple :
      (run : Run)
      → IsAbout job.scan_id run.outcome
      → Triple Just (handle env run entry job) (λ u. Just) Just
  unfolding handle
  handle-Triple run h = bind-Triple (quiet _ refl) (λ u.
      bind-Triple
        (record {
          runs = λ w j.
              closed-Leaves ((handle_kept-Answer run h).runs w j) clear-Answer (quiet _ refl);
        })
        (λ b.
          if-Triple b
            (λ k.
              map-Triple (λ l a. a.1 k) (λ u l s. settles entry job.scan_id l s) (λ l j. j)
                (ack-Triple entry job.scan_id))
            (λ k. pure-Triple (λ l a. a.0))))

  pub abandon-Triple :
      (delivered : ℕ) → Triple Just (abandon env entry job delivered) (λ u. Just) Just
  unfolding abandon
  abandon-Triple delivered = bind-Triple (quiet _ refl) (λ u.
      bind-Triple (dead_letter-Settled _ _ _ _) (λ u.
        map-Triple (λ l a. a) (λ u l s. settles entry job.scan_id l s) (λ l j. j)
          (ack-Triple entry job.scan_id)))
