-- ===== src/Scan/Stages.antt =====
-- Running the stages: `Stage.safe_run` (services/worker/worker_app/stages/base.py) and
-- `Pipeline._run_stages` (services/worker/worker_app/pipeline.py).
use Prim.Native.String.{◌++◌ as append}
use vulnscan.Base.{
  String, Bool, true, false, not, ◌&&◌, Option, none, some, List, [], ◌∷◌, ◌++◌, Dict, get_or,
  contains, if◌then◌else◌,
}
use vulnscan.Risk.Verdicts.{should_stop_early}
use vulnscan.Scan.Model.{
  ScanContext, Run, ran, threw, Attempt, finished, timed_out, Stage, StageTiming, Trace, Result,
  returned, escaped, ◌>>=◌,
}
use vulnscan.Scan.Context.{add, mark_failed, facts}
pub mod Laws
pub mod Stops
pub mod Totals

-- `RISKY_STAGES` (services/worker/worker_app/failure.py)
abbrev pub risky_stages : List String
risky_stages = "structure" ∷ "yara" ∷ "cdr" ∷ "archive" ∷ []

-- `STAGE_TIMEOUT_S` (packages/vscommon/limits.py), as `f"{timeout}s"` prints it.
abbrev pub stage_timeouts : Dict String
stage_timeouts =
    ("filetype", "2.0s") ∷ ("structure", "10.0s") ∷ ("clamav", "20.0s") ∷ ("yara", "10.0s") ∷ []

-- The handlers of `safe_run` and `_run_stages` for a stage that did not come to its end. A weight
-- that no finding can have makes `add` raise here, and then nothing catches it.
unfoldable pub note_failure : String → String → String → ScanContext → Result (ScanContext × Bool)
unfolding add mark_failed
note_failure name code detail ctx = elim (add name code (some detail) none (mark_failed name ctx)) [
  | ran c ↦ returned (c, false)
  | threw c ↦ escaped
]

-- `safe_run` under `asyncio.wait_for`: the context, and whether the stage came to its end.
unfoldable pub end_stage : String → Attempt → Result (ScanContext × Bool)
unfolding note_failure
end_stage name (finished (ran ctx)) = returned (ctx, true)
end_stage name (finished (threw ctx)) =
    note_failure name "STAGE_FAILED" (append "стадия " (append name " завершилась с ошибкой")) ctx
end_stage name (timed_out ctx) =
    note_failure name "STAGE_TIMEOUT" (get_or name stage_timeouts "30.0s") ctx

unfoldable pub run_stage : Stage → ScanContext → Result (ScanContext × Bool)
unfolding end_stage
run_stage s ctx = end_stage s.name (s.attempt ctx)

-- `await on_stage(name)`
abbrev pub mark : String → Trace → Trace
mark name t = record t { marks = t.marks ++ name ∷ [] }

abbrev pub mark_risky : String → Trace → Trace
mark_risky name t = if contains name risky_stages then mark name t else t

-- `timings.append(StageTiming(...))`
abbrev pub note_timing : String → Bool → Trace → Trace
note_timing name ok t = record t { timings = t.timings ++ record { stage = name; ok = ok } ∷ [] }

-- `not job.deep and should_stop_early(ctx, job.policy)`
unfoldable pub stops : ScanContext → Bool
stops ctx = not ctx.job.deep && should_stop_early (facts ctx) ctx.job.policy

-- `Pipeline._run_stages`
unfoldable pub run_stages : List Stage → ScanContext → Trace → Result (ScanContext × Trace)
unfolding run_stage stops
run_stages [] ctx t = returned (ctx, t)
run_stages (s ∷ ss) ctx t = do
  (c, ok) ← run_stage s ctx
  let t' = note_timing s.name ok (mark_risky s.name t)
  let rest = run_stages ss c t'
  if stops c then returned (c, t') else rest
