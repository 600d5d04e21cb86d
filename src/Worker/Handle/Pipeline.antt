-- ===== src/Worker/Handle/Pipeline.antt =====
-- The pipeline (services/worker/worker_app/pipeline.py) as the run that the worker's handler takes
-- (services/worker/worker_app/main.py).
use vulnscan.Base.{
  ℕ, String, Bool, true, false, none, some, List, [], ◌∷◌, ◌≡◌, refl, Bool-cases, Option-cases, inl,
  inr, if◌then◌else◌,
}
use vulnscan.Risk.Model.{CdrProfile, ScanStatus}
use vulnscan.Risk.Weights.{WeightTable}
use vulnscan.Risk.Verdicts.{apply_failure}
use vulnscan.Scan.Model.{
  CachedStructural, ScanJob, ScanContext, Run, ran, threw, Stage, Trace, Result, returned, escaped,
  out_of_fuel,
}
use vulnscan.Scan.Context.{add}
use vulnscan.Scan.Stages.{run_stages}
use vulnscan.Scan.Stages.Laws.{Yields, Yields-bind, anything}
use vulnscan.Scan.Members.{World}
use vulnscan.Scan.Process.{
  ScanResult, CdrOutcome, rebuilt, refused, crashed, Services, should_sanitize, profile_for,
  sanitize_with, start_of, judge, finish, hash_for, process_full, judge_cached, process_av_only,
  reusable, process,
}
use vulnscan.Scan.Process.Laws.{process_full-from}
use vulnscan.Worker.Failures.{Error}
use vulnscan.Worker.Handle.{Outcome, answered, broke}
use vulnscan.Worker.Handle.Laws.{IsAbout}

-- The end of `process`, with the exception that leaves it.
abbrev pub end_of : Error → Result ScanResult → Outcome
end_of exc (returned r) = answered r
end_of exc escaped = broke exc
end_of exc out_of_fuel = broke exc

end_of-IsAbout :
    (s : String) (exc : Error) (r : Result ScanResult)
    → Yields (λ a. a.scan_id ≡ s) r
    → IsAbout s (end_of exc r)
end_of-IsAbout s exc (returned r) h = h
end_of-IsAbout s exc escaped h = tt
end_of-IsAbout s exc out_of_fuel h = tt

module _ (job : ScanJob) where
  abbrev Named : ScanResult → Type 0
  Named r = r.scan_id ≡ job.scan_id

  refused-Named :
      (r : ScanResult) (a : Run)
      → Named r
      → Yields Named (elim a [
        | threw c ↦ escaped
        | ran c ↦ returned (record r {
          status = ScanStatus.failed;
          verdict = apply_failure r.verdict job.policy;
          findings = c.findings;
        })
      ])
  refused-Named r (threw c) n = tt
  refused-Named r (ran c) n = n

  sanitize_with-Named :
      (o : CdrOutcome) (profile : CdrProfile) (ctx : ScanContext) (r : ScanResult)
      → Named r
      → Yields Named (sanitize_with o profile job ctx r)
  unfolding sanitize_with
  sanitize_with-Named (rebuilt ref sha) profile ctx r n = n
  sanitize_with-Named (refused reason) profile ctx r n =
      refused-Named r (add "cdr" "CDR_FAILED" (some reason) none ctx) n
  sanitize_with-Named crashed profile ctx r n = tt

  finish-Named :
      (sv : Services) (ctx : ScanContext) (r : ScanResult)
      → Named r
      → Yields Named (finish sv job ctx r)
  unfolding finish
  finish-Named sv ctx r n = elim (Bool-cases (should_sanitize job r.verdict)) [
    | inl e ↦ rw (e, finish) (sanitize_with-Named _ (profile_for job r.verdict) ctx r n)
    | inr e ↦ rw (e, finish) n
  ]

  judge-Named :
      (sv : Services) (sha : String) (t : ScanContext × Trace) → Named (judge sv job sha t)
  unfolding judge
  judge-Named sv sha (ctx, t) = refl

  judge_cached-Named :
      (sv : Services) (cached : CachedStructural) (t : ScanContext × Trace)
      → Named (judge_cached sv job cached t)
  unfolding judge_cached
  judge_cached-Named sv cached (ctx, t) = refl

  module _ (w : World) (sv : Services) (stages : List Stage) (clamav : Stage) (fuel : ℕ)
      (weights : WeightTable) (path : String) where
    process_full-Named : Yields Named (process_full w sv stages fuel weights job path)
    process_full-Named = process_full-from w sv stages fuel weights job path Named (λ ctx t.
        finish-Named sv ctx (judge sv job (hash_for sv job path) (ctx, t))
          (judge-Named sv _ (ctx, t)))

    process_av_only-Named :
        (cached : CachedStructural)
        → Yields Named (process_av_only sv clamav weights job cached path)
    unfolding process_av_only
    process_av_only-Named cached =
        Yields-bind (λ _. Unit {0}) Named
          (run_stages (clamav ∷ []) (start_of job path weights)
            (record { marks = []; timings = [] }))
          (λ t. returned (judge_cached sv job cached t)) (anything _)
          (λ t u. judge_cached-Named sv cached t)

    either :
        (cached : CachedStructural) (b : Bool)
        → Yields Named (
            if b
            then process_av_only sv clamav weights job cached path
            else process_full w sv stages fuel weights job path)
    either cached true = process_av_only-Named cached
    either cached false = process_full-Named

    process-Named : Yields Named (process w sv stages clamav fuel weights job path)
    unfolding process
    process-Named = elim (Option-cases job.cached) [
      | inl e ↦ rw (e, process) process_full-Named
      | inr (cached, e) ↦ rw (e, process) (either cached (reusable sv cached))
    ]

-- The end of the pipeline on a job is a result of the job's own scan, where it is a result.
pub process-IsAbout :
    (w : World) (sv : Services) (stages : List Stage) (clamav : Stage) (fuel : ℕ)
    (weights : WeightTable) (job : ScanJob) (path : String) (exc : Error)
    → IsAbout job.scan_id (end_of exc (process w sv stages clamav fuel weights job path))
process-IsAbout w sv stages clamav fuel weights job path exc =
    end_of-IsAbout job.scan_id exc _ (process-Named job w sv stages clamav fuel weights path)
