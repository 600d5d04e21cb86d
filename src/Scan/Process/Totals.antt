-- ===== src/Scan/Process/Totals.antt =====
-- A full pass (`Pipeline._process_full` of services/worker/worker_app/pipeline.py) comes to an answer.
use vulnscan.Base.{String, Option, some, List, [], ◌≢◌, refl, inl, inr, arith, Bool-cases}
use vulnscan.Risk.Model.{CdrProfile}
use vulnscan.Risk.Weights.{WeightTable, with_overrides}
use vulnscan.Scan.Model.{ScanJob, ScanContext, Stage}
use vulnscan.Scan.Context.Growth.{Extends, Extends-trans}
use vulnscan.Scan.Stages.Laws.{AllStages, Yields-returned, run_stages-Extends}
use vulnscan.Scan.Stages.Totals.{IsAllowed, IsAllowed-later, Ends, add-IsRan, run_stages-Ends}
use vulnscan.Archive.Model.{ZipInfo}
use vulnscan.Scan.Members.{World, IsRead, expand}
use vulnscan.Scan.Members.Laws.{Grown, expand-Grown}
use vulnscan.Scan.Members.Totals.{IsReady, IsReady-later, bind-Ends, expand-Ends}
use vulnscan.Scan.Process.{
  ScanResult, CdrOutcome, rebuilt, refused, crashed, Services, should_sanitize, sanitize_with,
  start_of, finish, process_full,
}

sanitize_with-Ends :
    (o : CdrOutcome) (profile : CdrProfile) (job : ScanJob) (ctx : ScanContext) (r : ScanResult)
    → o ≢ crashed
    → IsAllowed "CDR_FAILED" ctx
    → Ends (sanitize_with o profile job ctx r)
unfolding sanitize_with
sanitize_with-Ends (rebuilt ref sha) profile job ctx r h a = (_, refl)
sanitize_with-Ends (refused reason) profile job ctx r h a =
    let (c, e) = add-IsRan "cdr" "CDR_FAILED" (some reason) ctx a in rw (e, sanitize_with) (_, refl)
sanitize_with-Ends crashed profile job ctx r h a = absurd (h refl)

module _ (sv : Services)
    (solid : (path : String) (mime : Option String) (p : CdrProfile)
      → sv.sanitize path mime p ≢ crashed) where
  finish-Ends :
      (job : ScanJob) (ctx : ScanContext) (r : ScanResult)
      → IsAllowed "CDR_FAILED" ctx
      → Ends (finish sv job ctx r)
  unfolding finish
  finish-Ends job ctx r a = elim (Bool-cases (should_sanitize job r.verdict)) [
    | inl e ↦ rw (e, finish) (sanitize_with-Ends _ _ job ctx r (solid _ _ _) a)
    | inr e ↦ rw (e, finish) (_, refl)
  ]

  -- A full pass returns a result, whichever of the stages fail or time out, however deep the archives
  -- are nested and whether or not the file can be rebuilt, if the stages only add to the context, the
  -- five codes that the pipeline reports itself weigh what a finding can weigh, every member that
  -- cannot be read or written out ends in an exception that `extract` turns into an `ArchiveError`,
  -- and the rebuilding ends in a file or in an error that it knows. Six rounds of fuel are enough.
  pub process_full-Ends :
      (w : World) (stages : List Stage) (weights : WeightTable) (job : ScanJob) (path : String)
      → AllStages stages
      → ((file : String) (info : ZipInfo) → IsRead (w.read file info))
      → IsReady (start_of job path (with_overrides weights job.policy.weight_overrides))
      → IsAllowed "CDR_FAILED"
          (start_of job path (with_overrides weights job.policy.weight_overrides))
      → Ends (process_full w sv stages 6 weights job path)
  unfolding process_full
  process_full-Ends w stages weights job path lawful read ready allowed =
      let start = start_of job path (with_overrides weights job.policy.weight_overrides) in
      bind-Ends _ _
        (run_stages-Ends stages start (record { marks = []; timings = [] }) lawful ready.stages)
        (λ r e.
          let p : Extends start r.0 = run_stages-Extends stages start r.0 _ r.1 lawful e in
          bind-Ends (expand w stages 6 r.0 r.1) _
            (expand-Ends w stages lawful read 6 r.0 r.1 (IsReady-later p ready) (omega arith)
              (omega arith))
            (λ q f.
              let g : Extends r.0 q.0 =
                Yields-returned (Grown r.0) (expand-Grown w stages 6 r.0 r.1) f in
              finish-Ends job q.0 _ (IsAllowed-later "CDR_FAILED" (Extends-trans p g) allowed)))
