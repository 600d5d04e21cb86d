-- ===== src/Scan/Process.antt =====
-- From the stages to the answer: `Pipeline.process` with its two ways, the rebuilding of the file and
-- the list of trusted files (services/worker/worker_app/pipeline.py).
use vulnscan.Base.{
  ℕ, String, Bool, true, false, not, ◌&&◌, ◌||◌, Option, none, some, List, [], ◌∷◌, ◌++◌,
  if◌then◌else◌, starts_with,
}
use vulnscan.Risk.Model.{
  Verdict, clean, malicious, is_unscannable, is_malicious, ScanStatus, done, failed, CdrProfile,
  ScanMode, Finding, ScanFacts, TenantPolicy, DeliverBlocked, merge,
}
use vulnscan.Risk.Weights.{WeightTable, with_overrides}
use vulnscan.Risk.Verdicts.{verdict_of, apply_failure}
use vulnscan.Scan.Model.{
  StageTiming, SanitizedArtifact, CachedStructural, ScanJob, ScanContext, Run, ran, threw, Stage,
  Trace, Result, returned, escaped, out_of_fuel, ◌>>=◌,
}
use vulnscan.Scan.Context.{add, facts}
use vulnscan.Scan.Stages.{run_stages, mark}
use vulnscan.Scan.Members.{World, expand}
pub mod Laws
pub mod Artifacts
pub mod Totals
pub mod Archives

-- `ScanResult`, without the times and the versions.
pub record ScanResult : Type 0 where
  pub scan_id : String
  pub sha256 : String
  pub status : ScanStatus
  pub verdict : Verdict
  pub score : ℕ
  pub findings : List Finding
  pub sanitized : Option SanitizedArtifact
  pub stages : List StageTiming
  pub facts : Option ScanFacts
  pub shadow : Bool
  pub allowlisted : Bool
  pub deep : Bool
  pub parent_scan_id : String

-- How the rebuilding of a file ends within its time limit: with the new file and its hash, with an
-- error that `_sanitize` knows (`SanitizeError` or `TimeoutError`, by name), or with any other. The
-- storing of the new file counts with it.
pub data CdrOutcome : Type 0 where
  rebuilt : String → String → CdrOutcome
  refused : String → CdrOutcome
  crashed : CdrOutcome

-- What the pipeline asks of the code around it.
pub record Services : Type 0 where
  pub sanitize : String → Option String → CdrProfile → CdrOutcome
  pub hash_of : String → String
  pub exists : String → Bool
  pub allows : Option (String → Option String → Verdict → Bool)

-- `job.mode is ScanMode.DETECT`
abbrev pub is_detect : ScanMode → Bool
is_detect ScanMode.detect = true
is_detect _ = false

-- `job.policy.deliver_blocked == "strict"`
abbrev pub is_strict : DeliverBlocked → Bool
is_strict DeliverBlocked.strict = true
is_strict _ = false

-- `_apply_allowlist`
unfoldable pub apply_allowlist :
    Option (String → Option String → Verdict → Bool)
    → String
    → Option String
    → Verdict
    → Verdict × Bool
apply_allowlist none sha tenant v = (v, false)
apply_allowlist (some check) sha tenant v =
    if check sha tenant v then (Verdict.suspicious, true) else (v, false)

-- `_should_sanitize`
unfoldable pub should_sanitize : ScanJob → Verdict → Bool
unfolding is_unscannable is_malicious
should_sanitize job v =
    if is_detect job.mode
    then false
    else if is_unscannable v
    then false
    else if is_malicious v && job.deep
    then true
    else if is_malicious v
    then job.policy.shadow_mode || is_strict job.policy.deliver_blocked
    else true

-- `profile_for`
unfoldable pub profile_for : ScanJob → Verdict → CdrProfile
unfolding is_malicious
profile_for job v = if is_malicious v then CdrProfile.strict else job.profile

-- `_sanitize`: the result with the artifact, or with what the failure makes of it. The timing of the
-- rebuilding is put into the list of timings after the result has taken its copy, so the result does
-- not have it.
unfoldable pub sanitize_with :
    CdrOutcome → CdrProfile → ScanJob → ScanContext → ScanResult → Result ScanResult
unfolding add apply_failure
sanitize_with (rebuilt ref sha) profile job ctx r = returned (record r {
  sanitized =
      some (record {
        ref = ref;
        profile = profile;
        original_sha256 = r.sha256;
        sanitized_sha256 = sha;
      });
})
sanitize_with (refused reason) profile job ctx r =
    elim (add "cdr" "CDR_FAILED" (some reason) none ctx) [
      | threw c ↦ escaped
      | ran c ↦ returned (record r {
        status = failed;
        verdict = apply_failure r.verdict job.policy;
        findings = c.findings;
      })
    ]
sanitize_with crashed profile job ctx r = escaped

-- The context that a pass over the whole file, or over its antivirus half, starts from.
abbrev pub start_of : ScanJob → String → WeightTable → ScanContext
start_of job path weights = record {
  job = job;
  path = path;
  detected_mime = none;
  detected_ext = none;
  findings = [];
  weights = weights;
  failed_stages = [];
  encrypted = false;
  supported = true;
  budget = none;
  depth = 0;
  members = [];
}

-- The result before the rebuilding.
unfoldable pub judge : Services → ScanJob → String → ScanContext × Trace → ScanResult
unfolding verdict_of apply_allowlist facts
judge sv job sha (ctx, t) =
    let (v, score) = verdict_of (facts ctx) job.policy in
    let (v', allowed) = apply_allowlist sv.allows sha job.tenant v in
    record {
      scan_id = job.scan_id;
      sha256 = sha;
      status = done;
      verdict = v';
      score = score;
      findings = ctx.findings;
      sanitized = none;
      stages = t.timings;
      facts = some (facts ctx);
      shadow = job.policy.shadow_mode;
      allowlisted = allowed;
      deep = job.deep;
      parent_scan_id = job.parent_scan_id;
    }

-- The end of `_process_full`: the rebuilding, where it is called for.
unfoldable pub finish : Services → ScanJob → ScanContext → ScanResult → Result ScanResult
unfolding should_sanitize profile_for sanitize_with
finish sv job ctx r =
    let profile = profile_for job r.verdict in
    if should_sanitize job r.verdict
    then sanitize_with (sv.sanitize ctx.path ctx.detected_mime profile) profile job ctx r
    else returned r

-- The hash that a file has which came by reference, or that the gateway gave.
abbrev pub hash_for : Services → ScanJob → String → String
hash_for sv job path = if starts_with job.sha256 "ref:" then sv.hash_of path else job.sha256

-- `_process_full`, on the file that the store has put at the path.
unfoldable pub process_full :
    World → Services → List Stage → ℕ → WeightTable → ScanJob → String → Result ScanResult
unfolding run_stages expand judge finish
process_full w sv stages fuel weights job path = do
  (c, t) ←
      run_stages stages (start_of job path (with_overrides weights job.policy.weight_overrides))
        (record { marks = []; timings = [] })
  (c', t') ← expand w stages fuel c t
  finish sv job c' (judge sv job (hash_for sv job path) (c', t'))

-- `cached.sanitized if verdict is not Verdict.MALICIOUS else None`
abbrev pub unless_blocked : Verdict → Option SanitizedArtifact → Option SanitizedArtifact
unless_blocked v a = if is_malicious v then none else a

-- The answer of `_process_av_only`, after the antivirus.
unfoldable pub judge_cached :
    Services → ScanJob → CachedStructural → ScanContext × Trace → ScanResult
unfolding merge verdict_of apply_allowlist facts is_malicious
judge_cached sv job cached (ctx, t) =
    let both = merge cached.facts (facts ctx) in
    let (v, score) = verdict_of both job.policy in
    let (v', allowed) = apply_allowlist sv.allows cached.sha256 job.tenant v in
    record {
      scan_id = job.scan_id;
      sha256 = cached.sha256;
      status = done;
      verdict = v';
      score = score;
      findings = both.findings;
      sanitized = unless_blocked v' cached.sanitized;
      stages = cached.stages ++ t.timings;
      facts = some both;
      shadow = false;
      allowlisted = allowed;
      deep = false;
      parent_scan_id = "";
    }

-- `_process_av_only`
unfoldable pub process_av_only :
    Services → Stage → WeightTable → ScanJob → CachedStructural → String → Result ScanResult
unfolding run_stages judge_cached
process_av_only sv clamav weights job cached path = do
  r ← run_stages (clamav ∷ []) (start_of job path weights) (record { marks = []; timings = [] })
  returned (judge_cached sv job cached r)

-- `_reusable`
unfoldable pub reusable : Services → CachedStructural → Bool
reusable sv cached = elim cached.sanitized [ none ↦ true | some a ↦ sv.exists a.ref ]

-- `process`
unfoldable pub process :
    World → Services → List Stage → Stage → ℕ → WeightTable → ScanJob → String → Result ScanResult
unfolding reusable process_av_only process_full
process w sv stages clamav fuel weights job path = elim job.cached [
  | none ↦ process_full w sv stages fuel weights job path
  | some cached ↦
      let full = process_full w sv stages fuel weights job path in
      if reusable sv cached then process_av_only sv clamav weights job cached path else full
]
