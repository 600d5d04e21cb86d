-- ===== src/Risk/Verdicts.antt =====
-- From facts to a verdict (packages/vscommon/scoring.py, and its adapter
-- services/worker/worker_app/scoring.py).
use vulnscan.Base.{
  ℕ, max, String, Bool, true, false, not, List, [], ◌∷◌, intersects, leb, if◌then◌else◌,
}
use vulnscan.Risk.Model.{
  Verdict, clean, suspicious, malicious, unsupported, encrypted, error, FailMode, fail_closed,
  fail_open, TenantPolicy, ScanFacts,
}
use vulnscan.Risk.Score.{score_of}
pub mod Laws

-- `ESSENTIAL_STAGES`
abbrev pub essential_stages : List String
essential_stages = "filetype" ∷ "structure" ∷ "clamav" ∷ []

-- `coverage_incomplete`
unfoldable pub coverage_incomplete : ScanFacts → Bool
coverage_incomplete facts = intersects facts.failed_stages essential_stages

-- `verdict_on_failure`
unfoldable pub verdict_on_failure : FailMode → Verdict
verdict_on_failure FailMode.fail_open = clean
verdict_on_failure FailMode.fail_closed = malicious
verdict_on_failure FailMode.suspicious = Verdict.suspicious

-- `apply_failure`
unfoldable pub apply_failure : Verdict → TenantPolicy → Verdict
apply_failure clean policy = verdict_on_failure policy.fail_mode
apply_failure v policy = v

-- The last branch of `verdict_of`, where nothing was found but the coverage is incomplete.
abbrev degraded_verdict : Verdict → ℕ → TenantPolicy → Verdict × ℕ
degraded_verdict clean score policy = (clean, score)
degraded_verdict v score policy = (v, max score policy.suspicious_threshold)

-- `verdict_of`
unfoldable pub verdict_of : ScanFacts → TenantPolicy → Verdict × ℕ
unfolding coverage_incomplete apply_failure verdict_on_failure
verdict_of facts policy =
    let score = score_of facts.findings in
    if leb policy.block_threshold score
    then (malicious, score)
    else if facts.encrypted
    then (encrypted, max score policy.suspicious_threshold)
    else if not facts.supported
    then (unsupported, max score policy.suspicious_threshold)
    else if leb policy.suspicious_threshold score
    then (Verdict.suspicious, score)
    else if coverage_incomplete facts
    then degraded_verdict (apply_failure clean policy) score policy
    else (clean, score)

-- `should_stop_early`
unfoldable pub should_stop_early : ScanFacts → TenantPolicy → Bool
should_stop_early facts policy =
    if policy.shadow_mode then false else leb policy.block_threshold (score_of facts.findings)
