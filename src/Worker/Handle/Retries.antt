-- ===== src/Worker/Handle/Retries.antt =====
-- An attempt that the infrastructure spoils (`_handle` of services/worker/worker_app/main.py, `should_retry`
-- of services/worker/worker_app/failure.py).
use vulnscan.Base.{
  ℕ, ◌+◌, String, Bool, true, false, not, Option, none, some, List, [], ◌∷◌, keep, ◌≡◌, refl, ◌∙◌,
}
use vulnscan.Risk.Model.{is_terminal}
use vulnscan.Scan.Model.{ScanJob}
use vulnscan.Scan.Process.{ScanResult}
use vulnscan.Worker.Failures.{Error, Attempt, classify, should_retry, crashed_on_content}
use vulnscan.Worker.Redis.{
  Effect, beat, clear, set_attempt, drop_attempt, Redis, Fault, works, fails, loses, dies, Ended,
  returned, raised, died, Act, continue, attempted, ask_with, write, status_in, attempt_in,
}
use vulnscan.Worker.Logic.{
  Triple, Leaves, by_death, if-Triple, bind-Triple, pure-Triple, write-Triple, read-Triple,
  closed-Leaves,
}
use vulnscan.Worker.Emits.{Emits, pure-Emits, write-Emits, bind-Emits, Emits-keeps}
use vulnscan.Worker.Notify.{Env}
use vulnscan.Worker.Handle.{
  Outcome, broke, Run, report_all, end_with, run_pipeline, on_error, conclude, try_scan, scan_after,
  scan_anew, handle_after, handle_kept, handle,
}
use vulnscan.Worker.Handle.Laws.{log_of}
use vulnscan.Worker.Handle.Acks.{at_end}

-- The marks of work in progress: heartbeats and attempts.
abbrev pub is_progress : Effect → Bool
is_progress (beat e) = true
is_progress (clear e) = true
is_progress (set_attempt a) = true
is_progress (drop_attempt s) = true
is_progress _ = false

-- Everything else in a log.
abbrev pub outputs : List Effect → List Effect
outputs = keep (λ e. not (is_progress e))

abbrev pub has_ended : Option ScanResult → Bool
has_ended none = false
has_ended (some r) = is_terminal r.status

abbrev pub has_crashed : ℕ → Option Attempt → Bool
has_crashed max_crashes none = false
has_crashed max_crashes (some a) = crashed_on_content a max_crashes

outputs-more : (e : Effect) (l : List Effect) → is_progress e ≡ true → outputs (e ∷ l) ≡ outputs l
outputs-more e l h = rw h refl

module _ (env : Env) (run : Run) (entry : String) (job : ScanJob) (v : List Effect) where
  abbrev Same : List Effect → Type 0
  Same l = outputs l ≡ v

  quiet {ℓ} : {A : Type ℓ} {m : Act A} → Emits is_progress m → Triple Same m (λ a. Same) Same
  quiet h = Emits-keeps Same (λ e l k g. outputs-more e l k ∙ g) h

  report_all-Emits : (n : ℕ) (ss : List String) → Emits is_progress (report_all job.scan_id n ss)
  unfolding report_all
  report_all-Emits n [] = pure-Emits
  report_all-Emits n (t ∷ ts) = bind-Emits (write-Emits _ refl) (λ u. report_all-Emits n ts)

  on_error-Same :
      (exc : Error)
      → should_retry exc ≡ true
      → Triple Same (on_error env entry job exc) (λ b l. Same l × (b ≡ false)) Same
  unfolding on_error
  on_error-Same exc h =
      bind-Triple (quiet (write-Emits _ refl))
        (λ u. if-Triple (should_retry exc) (λ k. pure-Triple (λ l g. (g, refl))) (λ k. cc))

  -- What raises is worth another attempt, and nothing but marks of progress is written.
  data Spoilt {A : Type 0} (may : Bool) : Ended A → Type 0 where
    returns : {a : A} {w : Redis} → may ≡ true → Same w.log → Spoilt may (returned a w)
    raises : {e : Error} {w : Redis} → should_retry e ≡ true → Same w.log → Spoilt may (raised e w)
    dies_so : {w : Redis} → Same w.log → Spoilt may (died w)

  ask-Spoilt :
      (plan : List Fault) (e : Effect) (l : List Effect)
      → is_progress e ≡ true
      → Same l
      → Spoilt true (ask_with plan (λ log. (tt, e ∷ log)) l)
  unfolding ask_with should_retry classify
  ask-Spoilt [] e l h g = returns refl (outputs-more e l h ∙ g)
  ask-Spoilt (works ∷ plan) e l h g = returns refl (outputs-more e l h ∙ g)
  ask-Spoilt (fails ∷ plan) e l h g = raises refl g
  ask-Spoilt (loses ∷ plan) e l h g = raises refl (outputs-more e l h ∙ g)
  ask-Spoilt (dies ∷ plan) e l h g = dies_so g

  continue-Spoilt :
      {A B : Type 0} {may : Bool} {r : Ended A} {f : A → Act B}
      → Spoilt true r
      → ((a : A) (w : Redis) → Same w.log → Spoilt may (f a w))
      → Spoilt may (continue r f)
  continue-Spoilt (returns h g) k = k _ _ g
  continue-Spoilt (raises h g) k = raises h g
  continue-Spoilt (dies_so g) k = dies_so g

  report_all-Spoilt :
      (n : ℕ) (ss : List String) (w : Redis)
      → Same w.log
      → Spoilt true (report_all job.scan_id n ss w)
  unfolding report_all write
  report_all-Spoilt n [] w g = returns refl g
  report_all-Spoilt n (t ∷ ts) w g =
      continue-Spoilt (ask-Spoilt w.plan _ w.log refl g) (λ u. report_all-Spoilt n ts)

  end_with-Spoilt :
      (o : Outcome) (exc : Error) (w : Redis)
      → o ≡ broke exc
      → should_retry exc ≡ true
      → Same w.log
      → Spoilt false (end_with o w)
  end_with-Spoilt o exc w h k g = rw h (raises k g)

  -- The answer of an attempt that was spoilt.
  abbrev No : Bool → List Effect → Type 0
  No b l = Same l × (b ≡ false)

  attempted-No :
      {r : Ended ScanResult}
      → Spoilt false r
      → Leaves No Same (attempted r (on_error env entry job) (conclude env job))
  attempted-No (returns h g) = cc
  attempted-No (raises h g) = (on_error-Same _ h).runs _ g
  attempted-No (dies_so g) = by_death g

  -- What the handler reads, and the log.
  module _ (exc : Error) (spoils : run.outcome ≡ broke exc)
      (retried : should_retry exc ≡ true) where
    try_scan-No : (n : ℕ) → Triple Same (try_scan env run entry job n) No Same
    unfolding try_scan run_pipeline
    try_scan-No n = bind-Triple (quiet (write-Emits _ refl)) (λ u. record {
      runs = λ w g. attempted-No (
          continue-Spoilt (report_all-Spoilt n run.stages w g)
            (λ u k. end_with-Spoilt run.outcome exc k spoils retried));
    })

    scan_after-No :
        (previous : Option Attempt)
        → Triple
            (λ l. (has_crashed env.max_parser_crashes previous ≡ false) × Same l)
            (scan_after env run entry job previous)
            No
            Same
    unfolding scan_after
    scan_after-No none = record { runs = λ w g. (try_scan-No 1).runs w g.1 }
    scan_after-No (some a) =
        if-Triple (crashed_on_content a env.max_parser_crashes) (λ h. record { runs = λ w g. cc })
          (λ h. record { runs = λ w g. (try_scan-No (a.attempt + 1)).runs w g.1 })

    abbrev Fresh : List Effect → Type 0
    Fresh l = (has_crashed env.max_parser_crashes (attempt_in job.scan_id l) ≡ false) × Same l

    scan_anew-No : Triple Fresh (scan_anew env run entry job) No Same
    unfolding scan_anew
    scan_anew-No =
        bind-Triple (read-Triple (attempt_in job.scan_id) (λ l g. g.1) (λ l g. g)) scan_after-No

    handle_after-No :
        (completed : Option ScanResult)
        → Triple
            (λ l. (has_ended completed ≡ false) × Fresh l)
            (handle_after env run entry job completed)
            No
            Same
    unfolding handle_after
    handle_after-No none = record { runs = λ w g. scan_anew-No.runs w g.1 }
    handle_after-No (some r) =
        if-Triple (is_terminal r.status) (λ h. record { runs = λ w g. cc })
          (λ h. record { runs = λ w g. scan_anew-No.runs w g.1 })

    abbrev Open : List Effect → Type 0
    Open l = (has_ended (status_in job.scan_id l) ≡ false) × Fresh l

    handle_kept-No : Triple Open (handle_kept env run entry job) No Same
    unfolding handle_kept
    handle_kept-No =
        bind-Triple (read-Triple (status_in job.scan_id) (λ l g. g.1.1) (λ l g. g)) handle_after-No

    clear-No : (b : Bool) → Triple (No b) (write (clear entry)) (λ u. No b) Same
    clear-No b = write-Triple (λ l g. g.0) (λ l g. g.0) (λ l g. g)

    handle-Same : Triple Open (handle env run entry job) (λ u. Same) Same
    unfolding handle status_in attempt_in
    handle-Same = bind-Triple (write-Triple (λ l g. g.1.1) (λ l g. g.1.1) (λ l g. g)) (λ u.
        bind-Triple
          (record {
            runs = λ w g.
                closed-Leaves (handle_kept-No.runs w g) clear-No (quiet (write-Emits _ refl));
          })
          (λ b. if-Triple b (λ h. record { runs = λ w g. cc }) (λ h. pure-Triple (λ l g. g.0))))

-- However the calls of Redis end, a run of the pipeline that ends with an error of the infrastructure leaves
-- the log as it was but for heartbeats and the journal of attempts: no acknowledgement, no status, no dead letter.
-- The scan has no terminal status before, and no attempt that crashed on the content.
pub handle-retried :
    (env : Env) (run : Run) (entry : String) (job : ScanJob) (exc : Error) (w : Redis)
    → run.outcome ≡ broke exc
    → should_retry exc ≡ true
    → has_ended (status_in job.scan_id w.log) ≡ false
    → has_crashed env.max_parser_crashes (attempt_in job.scan_id w.log) ≡ false
    → outputs (log_of (handle env run entry job w)) ≡ outputs w.log
handle-retried env run entry job exc w spoils retried o c =
    at_end
      ((handle-Same env run entry job (outputs w.log) exc spoils retried).runs w (o, (c, refl)))
