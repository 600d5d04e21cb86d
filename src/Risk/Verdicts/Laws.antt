-- ===== src/Risk/Verdicts/Laws.antt =====
-- What the verdict of `verdict_of` (packages/vscommon/scoring.py) says about the facts.
use vulnscan.Base.{
  Option, none, some, true, false, not, List, ◌++◌, ◌≡◌, ◌≢◌, ◌≤◌, ◌<◌, ◌↔◌, ◌⊎◌, arith,
  intersects-union, keep, contains,
}
use vulnscan.Risk.Score.Laws.{score_of-le, score_of-append}
use vulnscan.Risk.Model.{
  clean, malicious, FailMode, TenantPolicy, ScanFacts, codes_of, merge, Finding,
}
use vulnscan.Risk.Score.{score_of}
use vulnscan.Risk.Verdicts.{essential_stages, coverage_incomplete, verdict_of, should_stop_early}

-- What `clean` stands for.
abbrev pub IsCleared : ScanFacts → TenantPolicy → Type 0
IsCleared facts policy =
    (score_of facts.findings < policy.block_threshold)
    × (score_of facts.findings < policy.suspicious_threshold)
    × (facts.encrypted ≡ false)
    × (facts.supported ≡ true)
    × ((coverage_incomplete facts ≡ false) ⊎ (policy.fail_mode ≡ FailMode.fail_open))

-- The facts that a result reports are there, and nothing in them is against the file.
abbrev pub WasCleared : Option ScanFacts → TenantPolicy → Type 0
WasCleared none policy = true ≡ false
WasCleared (some facts) policy = IsCleared facts policy

verdict_of-clean :
    (facts : ScanFacts) (policy : TenantPolicy)
    → (verdict_of facts policy).0 ≡ clean
    → IsCleared facts policy
unfolding verdict_of
verdict_of-clean facts policy h = ground arith

clean-verdict_of :
    (facts : ScanFacts) (policy : TenantPolicy)
    → IsCleared facts policy
    → (verdict_of facts policy).0 ≡ clean
unfolding verdict_of
clean-verdict_of facts policy h = ground arith

-- `clean` says that the file was supported and readable, that it scored below both thresholds, and
-- that every essential stage ran, unless the tenant has chosen fail-open.
pub verdict_of-clean_iff :
    (facts : ScanFacts) (policy : TenantPolicy)
    → ((verdict_of facts policy).0 ≡ clean) ↔ IsCleared facts policy
verdict_of-clean_iff facts policy =
    (verdict_of-clean facts policy, λ h. clean-verdict_of facts policy h)

-- `malicious` says that the score reached the block threshold, or that the tenant has chosen
-- fail-closed and an essential stage did not run on a readable, supported file of low score.
pub verdict_of-malicious :
    (facts : ScanFacts) (policy : TenantPolicy)
    → (verdict_of facts policy).0 ≡ malicious
    → (policy.block_threshold ≤ score_of facts.findings)
      ⊎ ((coverage_incomplete facts ≡ true)
          × (policy.fail_mode ≡ FailMode.fail_closed)
          × (score_of facts.findings < policy.suspicious_threshold))
unfolding verdict_of
verdict_of-malicious facts policy h = ground arith

-- Of the pair that `verdict_of` gives, the verdict is `clean` exactly if the score is below the
-- suspicious threshold, if that threshold is not above the block threshold.
pub verdict_of-score_iff :
    (facts : ScanFacts) (policy : TenantPolicy)
    → policy.suspicious_threshold ≤ policy.block_threshold
    → let (verdict, score) = verdict_of facts policy in
      (verdict ≡ clean) ↔ (score < policy.suspicious_threshold)
unfolding verdict_of
verdict_of-score_iff facts policy h = ground arith

-- A score stays within 100 on every branch, if the suspicious threshold does.
pub verdict_of-score-le :
    (facts : ScanFacts) (policy : TenantPolicy)
    → policy.suspicious_threshold ≤ 100
    → (verdict_of facts policy).1 ≤ 100
unfolding verdict_of
verdict_of-score-le facts policy h = ground (arith, score_of-le facts.findings)

-- An early stop does not change the verdict: whatever the remaining stages would have added, the
-- file is malicious.
pub should_stop_early-verdict_of :
    (facts later : ScanFacts) (policy : TenantPolicy) (more : List Finding)
    → later.findings ≡ facts.findings ++ more
    → should_stop_early facts policy ≡ true
    → (verdict_of later policy).0 ≡ malicious
unfolding verdict_of should_stop_early
should_stop_early-verdict_of facts later policy more e h =
    ground (arith, score_of-append facts.findings more)

-- Merging in the antivirus half never turns a file clean that the structural half alone did not,
-- and the merged file is clean only if the other half was readable, supported and complete too.
pub verdict_of-merge :
    (self other : ScanFacts) (policy : TenantPolicy)
    → (verdict_of (merge self other) policy).0 ≡ clean
    → ((verdict_of self policy).0 ≡ clean)
      × (other.encrypted ≡ false)
      × (other.supported ≡ true)
      × ((coverage_incomplete other ≡ false) ⊎ (policy.fail_mode ≡ FailMode.fail_open))
unfolding merge verdict_of
verdict_of-merge self other policy h = ground (
  arith,
  score_of-append self.findings
      (keep (λ f. not (contains f.code (codes_of self.findings))) other.findings),
  intersects-union self.failed_stages other.failed_stages essential_stages,
)

-- More findings turn a file that is malicious into one that is not exactly if the tenant has chosen
-- fail-closed, the file is readable and supported, an essential stage did not run on it, it scored
-- below both thresholds without the further findings, and with them it reaches the suspicious
-- threshold but not the block threshold.
pub verdict_of-milder_iff :
    (facts : ScanFacts) (policy : TenantPolicy) (extra : List Finding)
    → let more = record facts { findings = facts.findings ++ extra } in
      (((verdict_of facts policy).0 ≡ malicious) × ((verdict_of more policy).0 ≢ malicious)) ↔ (
        (policy.fail_mode ≡ FailMode.fail_closed)
        × (facts.encrypted ≡ false)
        × (facts.supported ≡ true)
        × (coverage_incomplete facts ≡ true)
        × (score_of facts.findings < policy.suspicious_threshold)
        × (policy.suspicious_threshold ≤ score_of more.findings)
        × (score_of more.findings < policy.block_threshold))
unfolding verdict_of
verdict_of-milder_iff facts policy extra = ground (arith, score_of-append facts.findings extra)
