-- ===== src/Scan/Process/Artifacts.antt =====
-- Which files are rebuilt, and how (`_should_sanitize`, `profile_for` and `_sanitize` of
-- services/worker/worker_app/pipeline.py).
use vulnscan.Base.{Bool, true, false, ◌||◌, Option, none, some, ◌≡◌, ◌≢◌, ◌⊎◌}
use vulnscan.Risk.Model.{Verdict, malicious, is_unscannable, CdrProfile, ScanMode}
use vulnscan.Scan.Model.{SanitizedArtifact, ScanJob}
use vulnscan.Scan.Process.{ScanResult, is_strict}

abbrev artifact_profile : CdrProfile → Option SanitizedArtifact → CdrProfile
artifact_profile p none = p
artifact_profile p (some a) = a.profile

-- What the policy asks for before a blocked file may be rebuilt.
abbrev pub may_rebuild_blocked : ScanJob → Bool
may_rebuild_blocked job =
    job.deep || (job.policy.shadow_mode || is_strict job.policy.deliver_blocked)

-- The rebuilding of a file is called for.
abbrev pub IsRebuildable : ScanJob → Verdict → CdrProfile → Type 0
IsRebuildable job v profile =
    (is_unscannable v ≡ false)
    × (job.mode ≢ ScanMode.detect)
    × ((v ≢ malicious) ⊎ ((may_rebuild_blocked job ≡ true) × (profile ≡ CdrProfile.strict)))

-- What holds of a result with an artifact.
abbrev IsGuarded : ScanJob → ScanResult → Type 0
IsGuarded job r =
    (a : SanitizedArtifact) → r.sanitized ≡ some a → IsRebuildable job r.verdict a.profile
