-- ===== src/Cache/Tests.antt =====
-- Results that go through the cache (packages/vscommon/cache.py) on small inputs, and each theorem at an
-- input that meets its hypotheses.
use vulnscan.Base.{String, true, false, none, some, [], ◌∷◌, ◌≡◌, refl, insert, get_or, sum_values}
use vulnscan.Risk.Model.{
  Severity, default_policy, ScanFacts, Finding, ScanMode, CdrProfile, Verdict, done, merge,
}
use vulnscan.Risk.Families.{family_of, code_families}
use vulnscan.Risk.Score.{score_of, strongest_of}
use vulnscan.Risk.Verdicts.{verdict_of, coverage_incomplete, apply_failure, verdict_on_failure}
use vulnscan.Scan.Model.{ScanJob}
use vulnscan.Scan.Process.{ScanResult}
use vulnscan.Cache.{structural_facts, av_facts, assemble, structural_of, av_of, weights_key_for}
use vulnscan.Cache.RoundTrip.{assemble-store}

program : Unit {0}
unfolding structural_facts av_facts assemble structural_of av_of weights_key_for merge verdict_of
    coverage_incomplete apply_failure verdict_on_failure score_of strongest_of family_of
    code_families insert get_or sum_values
program = tt

abbrev found : String → String → Finding
found stage code = record {
  stage = stage;
  code = code;
  severity = Severity.medium;
  detail = none;
  score = 20;
}

-- A file with a macro, an antivirus that did not answer, and nothing that the client said.
abbrev mixed : ScanFacts
mixed = record {
  findings = found "structure" "OOXML_MACRO" ∷ found "clamav" "AV_UNAVAILABLE" ∷ [];
  detected_mime = none;
  encrypted = false;
  supported = true;
  failed_stages = "clamav" ∷ [];
}

abbrev job : ScanJob
job = record {
  scan_id = "s1";
  sha256 = "ab";
  filename_ext = none;
  declared_mime = none;
  mode = ScanMode.both;
  profile = CdrProfile.standard;
  policy = default_policy;
  tenant = none;
  cached = none;
  deep = false;
  deep_reason = "";
  parent_scan_id = "";
  source = "raw/s1";
  size = 1000;
  filename = none;
  callback_url = none;
  key_id = "";
}

abbrev result : ScanResult
result = record {
  scan_id = "s1";
  sha256 = "ab";
  status = done;
  verdict = Verdict.suspicious;
  score = 40;
  findings = mixed.findings;
  sanitized = none;
  stages = [];
  facts = some mixed;
  shadow = false;
  allowlisted = false;
  deep = false;
  parent_scan_id = "";
}

abbrev again : ScanResult
again = assemble (structural_of job result mixed "r1") (av_of result mixed "v1") default_policy "s2"

comes_back : again.verdict ≡ Verdict.suspicious
unfolding assemble score_of structural_of av_of sum_values strongest_of insert family_of
comes_back = refl

assemble-store_example :
    (again.verdict ≡ (verdict_of mixed default_policy).0)
    × (again.score ≡ (verdict_of mixed default_policy).1)
assemble-store_example =
    assemble-store job result mixed default_policy "r1" "v1" "s2" (refl, (refl, tt)) refl
