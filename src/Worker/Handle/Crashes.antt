-- ===== src/Worker/Handle/Crashes.antt =====
-- A file that kills the process of the worker each time (`_handle` of
-- services/worker/worker_app/main.py, `crashed_on_content` of services/worker/worker_app/failure.py).
use vulnscan.Base.{
  ℕ, zero, suc, ◌≤◌, ◌<◌, String, true, false, Option, none, some, List, ◌∷◌, contains, eq_refl,
  ◌≡◌, refl, ap, subst, sym, ◌∙◌, arith,
}
use vulnscan.Scan.Model.{ScanJob}
use vulnscan.Worker.Failures.{Attempt, crashed_on_content}
use vulnscan.Scan.Stages.{risky_stages}
use vulnscan.Worker.Redis.{
  Effect, beat, set_attempt, died, write, read, ask_with, status_in, attempt_in, is_acked,
}
use vulnscan.Worker.Works.{calm, Got, then-Got, closed-Got}
use vulnscan.Worker.Notify.{Env}
use vulnscan.Worker.Deliver.Status.{has_status}
use vulnscan.Worker.Handle.{
  Run, run_pipeline, try_scan, scan_after, scan_anew, handle_after, handle_kept, handle, give_up,
}
use vulnscan.Worker.Handle.Laws.{log_of}
use vulnscan.Worker.Handle.Acks.{handle-acked}
use vulnscan.Worker.Handle.Ends.{got_log, Closed, give_up-Closed, clear-Closed, last-Acked}
use vulnscan.Worker.Handle.Marks.{
  crash, last_of, marked, marks, report_all-marks, attempt_in-marks, status_in-marks,
  is_acked-marks,
}

module _ (env : Env) (entry : String) (job : ScanJob) (stages : List String) where
  try_scan-crash :
      (n : ℕ) (l : List Effect)
      → try_scan env (crash stages) entry job n (calm l)
        ≡ died (calm (marks job.scan_id n stages (set_attempt (marked job.scan_id n "fetch") ∷ l)))
  unfolding try_scan run_pipeline write ask_with
  try_scan-crash n l =
      rw (report_all-marks job.scan_id n stages (set_attempt (marked job.scan_id n "fetch") ∷ l))
        refl

  -- What the journal has after that many deaths.
  abbrev journal_after : ℕ → Option Attempt
  journal_after zero = none
  journal_after (suc n) = some (marked job.scan_id (suc n) (last_of "fetch" stages))

  record Died (n : ℕ) (l : List Effect) : Type 0 where
    status : status_in job.scan_id l ≡ none
    journal : attempt_in job.scan_id l ≡ journal_after n
    unacked : is_acked entry l ≡ false

  not_crashed : (a : Attempt) (m : ℕ) → a.attempt < m → crashed_on_content a m ≡ false
  unfolding crashed_on_content
  not_crashed a m h = ground arith

  scan_after-crash :
      (n : ℕ)
      → suc n ≤ env.max_parser_crashes
      → scan_after env (crash stages) entry job (journal_after n)
        ≡ try_scan env (crash stages) entry job (suc n)
  unfolding scan_after crashed_on_content
  scan_after-crash zero h = refl
  scan_after-crash (suc n) h =
      rw
        (not_crashed (marked job.scan_id (suc n) (last_of "fetch" stages)) env.max_parser_crashes h)
        (ap (try_scan env (crash stages) entry job) (omega arith))

  handle_kept-crash :
      (run : Run) (n : ℕ) (l : List Effect)
      → Died n l
      → handle_kept env run entry job (calm l)
        ≡ scan_after env run entry job (journal_after n) (calm l)
  unfolding handle_kept handle_after scan_anew read ask_with
  handle_kept-crash run n l d = rw (d.status, d.journal) refl

  beaten : (n : ℕ) (l : List Effect) → Died n l → Died n (beat entry ∷ l)
  unfolding status_in attempt_in is_acked
  beaten n l d = record { status = d.status; journal = d.journal; unacked = d.unacked }

  handle-crash :
      (n : ℕ) (l : List Effect)
      → suc n ≤ env.max_parser_crashes
      → Died n l
      → handle env (crash stages) entry job (calm l)
        ≡ died (
            calm (
              marks job.scan_id
                (suc n)
                stages
                (set_attempt (marked job.scan_id (suc n) "fetch") ∷ beat entry ∷ l)))
  unfolding handle write ask_with
  handle-crash n l h d =
      rw
        (
          handle_kept-crash (crash stages) n (beat entry ∷ l) (beaten n l d),
          scan_after-crash n h,
          try_scan-crash (suc n) (beat entry ∷ l),
        )
        refl

  handle-Died :
      (n : ℕ) (l : List Effect)
      → suc n ≤ env.max_parser_crashes
      → Died n l
      → Died (suc n) (log_of (handle env (crash stages) entry job (calm l)))
  unfolding status_in attempt_in is_acked
  handle-Died n l h d = rw (handle-crash n l h d) (record {
    status =
        status_in-marks job.scan_id job.scan_id (suc n) stages (set_attempt first ∷ beat entry ∷ l)
        ∙ d.status;
    journal =
        attempt_in-marks job.scan_id (suc n) stages "fetch" (set_attempt first ∷ beat entry ∷ l)
          (ground (arith, eq_refl job.scan_id));
    unacked =
        is_acked-marks entry job.scan_id (suc n) stages (set_attempt first ∷ beat entry ∷ l)
        ∙ d.unacked;
  })
    where
      first : Attempt
      first = marked job.scan_id (suc n) "fetch"

  -- The log after that many handlings of the job.
  abbrev pub after_crashes : ℕ → List Effect → List Effect
  after_crashes zero l = l
  after_crashes (suc k) l = log_of (handle env (crash stages) entry job (calm (after_crashes k l)))

  after_crashes-Died :
      (k : ℕ) (l : List Effect)
      → k ≤ env.max_parser_crashes
      → Died zero l
      → Died k (after_crashes k l)
  after_crashes-Died zero l h d = d
  after_crashes-Died (suc k) l h d =
      handle-Died k (after_crashes k l) h (after_crashes-Died k l (omega (arith, h)) d)

  -- One handling more.
  handle-given_up :
      (previous : Attempt) (l : List Effect)
      → status_in job.scan_id l ≡ none
      → attempt_in job.scan_id l ≡ some previous
      → crashed_on_content previous env.max_parser_crashes ≡ true
      → handle_kept env (crash stages) entry job (calm l) ≡ give_up env entry job previous (calm l)
  unfolding handle_kept handle_after scan_anew scan_after read ask_with
  handle-given_up previous l h k c = rw (h, k, c) refl

  crashed :
      (n m : ℕ)
      → n ≤ m
      → contains (last_of "fetch" stages) risky_stages ≡ true
      → crashed_on_content (marked job.scan_id m (last_of "fetch" stages)) n ≡ true
  unfolding crashed_on_content
  crashed n m h k = ground arith

  last-handled :
      (n : ℕ) (l : List Effect)
      → contains (last_of "fetch" stages) risky_stages ≡ true
      → env.max_parser_crashes ≡ suc n
      → Died (suc n) l
      → is_acked entry (log_of (handle env (crash stages) entry job (calm l))) ≡ true
  unfolding handle write ask_with status_in attempt_in
  last-handled n l h m d = got_log (
      then-Got _
        (closed-Got _
          (subst (Got (Closed env entry job))
            (sym (
              handle-given_up _ (beat entry ∷ l) d.status d.journal
                (crashed _ (suc n) (omega (arith, m)) h)))
            ((give_up-Closed env entry job _).gets (beat entry ∷ l)))
          (clear-Closed env entry job))
        (last-Acked env entry job))

-- While Redis works otherwise, a job whose file kills the process each time, the last stage reported being
-- a risky one, is still unacknowledged after as many handlings as `max_parser_crashes` admits, and the
-- next handling acknowledges it with a status of the scan stored. At the start the scan has neither a
-- status nor an attempt, and the limit is not zero.
pub crashes-end :
    (env : Env) (entry : String) (job : ScanJob) (stages : List String) (n : ℕ) (l : List Effect)
    → env.max_parser_crashes ≡ suc n
    → contains (last_of "fetch" stages) risky_stages ≡ true
    → status_in job.scan_id l ≡ none
    → attempt_in job.scan_id l ≡ none
    → is_acked entry l ≡ false
    → (is_acked entry (after_crashes env entry job stages (suc n) l) ≡ false)
      × (is_acked entry (after_crashes env entry job stages (suc (suc n)) l) ≡ true)
      × (has_status job.scan_id (after_crashes env entry job stages (suc (suc n)) l) ≡ true)
crashes-end env entry job stages n l m h s a u = (
  all_died.unacked,
  done,
  handle-acked env (crash stages) entry job (calm (after_crashes env entry job stages (suc n) l)) tt
      all_died.unacked done,
)
  where
    all_died : Died env entry job stages (suc n) (after_crashes env entry job stages (suc n) l)
    all_died =
        after_crashes-Died env entry job stages (suc n) l (omega (arith, m))
          (record { status = s; journal = a; unacked = u })

    done : is_acked entry (after_crashes env entry job stages (suc (suc n)) l) ≡ true
    done = last-handled env entry job stages n _ h m all_died
