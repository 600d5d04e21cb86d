-- ===== src/Cache.antt =====
-- The two levels of the result cache: what the worker stores of a result (`_store_cache` of
-- services/worker/worker_app/main.py) and what the gateway makes of it (packages/vscommon/cache.py).
use Prim.Native.String.{◌++◌ as append}
use vulnscan.Base.{
  String, Bool, true, false, not, ◌&&◌, Option, none, some, List, [], ◌∷◌, keep, contains, str_eq,
  if◌then◌else◌,
}
use vulnscan.Risk.Model.{Finding, ScanFacts, TenantPolicy, CdrProfile, merge, done}
use vulnscan.Risk.Verdicts.{verdict_of}
use vulnscan.Scan.Model.{CachedStructural, ScanJob}
use vulnscan.Scan.Process.{ScanResult, unless_blocked}
pub mod RoundTrip
mod Tests

-- `REQUEST_DERIVED_CODES` (packages/vscommon/models.py)
abbrev pub request_derived_codes : List String
request_derived_codes = "MIME_MISMATCH" ∷ "EXT_MISMATCH" ∷ []

-- `CachedAv`
pub record CachedAv : Type 0 where
  pub sha256 : String
  pub facts : ScanFacts
  pub av_db_version : String

abbrev pub is_clamav : Finding → Bool
is_clamav f = str_eq f.stage "clamav"

abbrev pub is_request_derived : Finding → Bool
is_request_derived f = contains f.code request_derived_codes

abbrev pub lacks_all {ℓ} : {A : Type ℓ} → List A → Bool
lacks_all [] = true
lacks_all (x ∷ xs) = false

-- `weights_key_for`
unfoldable pub weights_key_for : TenantPolicy → String
weights_key_for policy = if lacks_all policy.weight_overrides then "default" else policy.tenant

-- The facts that do not depend on the antivirus, nor on what the client said of the file.
unfoldable pub structural_facts : ScanFacts → ScanFacts
structural_facts facts = record {
  findings = keep (λ f. not (is_clamav f) && not (is_request_derived f)) facts.findings;
  detected_mime = facts.detected_mime;
  encrypted = facts.encrypted;
  supported = facts.supported;
  failed_stages = keep (λ s. not (str_eq s "clamav")) facts.failed_stages;
}

-- The antivirus half.
unfoldable pub av_facts : ScanFacts → ScanFacts
av_facts facts = record {
  findings = keep is_clamav facts.findings;
  detected_mime = none;
  encrypted = false;
  supported = true;
  failed_stages = keep (λ s. str_eq s "clamav") facts.failed_stages;
}

-- The two entries that `_store_cache` puts.
unfoldable pub structural_of : ScanJob → ScanResult → ScanFacts → String → CachedStructural
unfolding structural_facts
structural_of job result facts rules_version = record {
  sha256 = result.sha256;
  profile = job.profile;
  facts = structural_facts facts;
  sanitized = result.sanitized;
  rules_version = rules_version;
  stages = keep (λ t. not (str_eq t.stage "clamav")) result.stages;
}

unfoldable pub av_of : ScanResult → ScanFacts → String → CachedAv
unfolding av_facts
av_of result facts av_db_version = record {
  sha256 = result.sha256;
  facts = av_facts facts;
  av_db_version = av_db_version;
}

-- `assemble`, with the identifier that `uuid4` gives it.
unfoldable pub assemble : CachedStructural → CachedAv → TenantPolicy → String → ScanResult
unfolding merge verdict_of
assemble structural av policy scan_id =
    let facts = merge structural.facts av.facts in
    let (v, score) = verdict_of facts policy in
    record {
      scan_id = scan_id;
      sha256 = structural.sha256;
      status = done;
      verdict = v;
      score = score;
      findings = facts.findings;
      sanitized = unless_blocked v structural.sanitized;
      stages = structural.stages;
      facts = none;
      shadow = false;
      allowlisted = false;
      deep = false;
      parent_scan_id = "";
    }
