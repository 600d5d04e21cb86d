-- ===== src/Scan/Tests.antt =====
-- Runs of a scan (services/worker/worker_app/pipeline.py) on small inputs, and each theorem at an
-- input that meets its hypotheses.
use vulnscan.Base.{
  if◌then◌else◌, str_eq, Bool, ℕ, String, true, false, Option, none, some, List, [], ◌∷◌, lookup,
  get_or, insert, update, sum_values, ◌≡◌, ◌≢◌, ◌⊎◌, ◌↔◌, refl, arith,
}
use vulnscan.Risk.Model.{
  Verdict, clean, malicious, is_malicious, is_unscannable, ScanStatus, done, CdrProfile, ScanMode,
  FailMode, TenantPolicy, default_policy, Finding, ScanFacts, merge,
}
use vulnscan.Risk.Families.{family_of, code_families}
use vulnscan.Risk.Weights.{
  WeightTable, default_weights, make_table, rule_for, override_rules, with_overrides,
}
use vulnscan.Risk.Score.{score_of, strongest_of}
use vulnscan.Risk.Verdicts.{
  verdict_of, should_stop_early, coverage_incomplete, apply_failure, verdict_on_failure,
}
use vulnscan.Risk.Verdicts.Laws.{WasCleared}
use vulnscan.Archive.Model.{ZipInfo, Member}
use vulnscan.Archive.Extract.{
  PyError, os_error, zlib_error, other_error, counted, open_zip, open_archive, copy_chunks, extract,
}
use vulnscan.Scan.Model.{
  SanitizedArtifact, CachedStructural, ScanJob, ScanContext, ran, threw, finished, Stage, Trace,
  Result, returned, escaped, out_of_fuel,
}
use vulnscan.Scan.Context.{
  mark_malformed, valid_score, append_finding, add, adopt_findings, adopt, facts, mark_failed,
  mark_incomplete,
}
use vulnscan.Scan.Context.Growth.{Extends-refl, add-Extends}
use vulnscan.Scan.Stages.{note_failure, end_stage, run_stage, run_stages, stops}
use vulnscan.Scan.Stages.Laws.{AllStages}
use vulnscan.Scan.Stages.Stops.{run_all, run_stages-malicious_iff, run_stages-not_clean}
use vulnscan.Scan.Stages.Totals.{Ends}
use vulnscan.Scan.Members.{
  analyse, World, IsRead, check_member, after_extract, visit, scan_members, expand,
}
use vulnscan.Scan.Members.Carried.{IsCarried, adopt-IsCarried}
use vulnscan.Scan.Members.Totals.{IsReady, expand-Ends}
use vulnscan.Scan.Process.{
  ScanResult, CdrOutcome, rebuilt, Services, apply_allowlist, should_sanitize, profile_for,
  sanitize_with, start_of, judge, finish, process_full, judge_cached, process_av_only, reusable,
  process,
}
use vulnscan.Scan.Process.Laws.{process_full-clean, process_av_only-clean}
use vulnscan.Scan.Process.Totals.{process_full-Ends}

program : Unit {0}
unfolding valid_score append_finding add adopt_findings adopt facts mark_failed mark_incomplete
    note_failure end_stage run_stage run_stages stops run_all check_member after_extract visit
    scan_members expand open_zip open_archive copy_chunks extract apply_allowlist should_sanitize
    profile_for sanitize_with judge finish process_full judge_cached process_av_only reusable
    process sum_values rule_for override_rules with_overrides make_table lookup get_or insert update
    default_weights score_of strongest_of family_of code_families verdict_of should_stop_early
    coverage_incomplete apply_failure verdict_on_failure merge is_malicious is_unscannable
program = tt

abbrev weights : WeightTable
weights = make_table [] false

abbrev job : ScanJob
job = record {
  scan_id = "s1";
  sha256 = "ab";
  filename_ext = some ".zip";
  declared_mime = none;
  mode = ScanMode.both;
  profile = CdrProfile.standard;
  policy = default_policy;
  tenant = none;
  cached = none;
  deep = false;
  deep_reason = "";
  parent_scan_id = "";
  source = "raw/s1";
  size = 1000;
  filename = none;
  callback_url = none;
  key_id = "";
}

abbrev start : ScanContext
start = start_of job "/tmp/a" weights

abbrev no_trace : Trace
no_trace = record { marks = []; timings = [] }

-- A stage that finds nothing, one that throws, and an antivirus that knows the file.
abbrev quiet : String → Stage
quiet name = record { name = name; attempt = λ ctx. finished (ran ctx) }

abbrev broken : String → Stage
broken name = record { name = name; attempt = λ ctx. finished (threw ctx) }

abbrev alarm : Stage
alarm = record {
  name = "clamav";
  attempt = λ ctx. finished (add "clamav" "AV_SIGNATURE_MATCH" none none ctx);
}

abbrev alarmed : List Stage
alarmed = alarm ∷ quiet "yara" ∷ []

AllStages-alarmed : AllStages alarmed
AllStages-alarmed = (
  (λ ctx. add-Extends "clamav" "AV_SIGNATURE_MATCH" none none ctx),
  ((λ ctx. Extends-refl ctx), tt),
)

abbrev value_of : Result (ScanContext × Trace) → ScanContext × Trace
value_of (returned r) = r
value_of escaped = (start, no_trace)
value_of out_of_fuel = (start, no_trace)

abbrev result_of : ScanResult → Result ScanResult → ScanResult
result_of d (returned r) = r
result_of d escaped = d
result_of d out_of_fuel = d

stops_early :
    (value_of (run_stages alarmed start no_trace)).1.timings
    ≡ record { stage = "clamav"; ok = true } ∷ []
unfolding program
stops_early = refl

run_stages-malicious_iff_example :
    ((verdict_of (facts (value_of (run_stages alarmed start no_trace)).0) default_policy).0
      ≡ malicious)
    ↔ ((verdict_of (facts (value_of (run_all alarmed start no_trace)).0) default_policy).0
        ≡ malicious)
unfolding program
run_stages-malicious_iff_example =
    run_stages-malicious_iff alarmed start no_trace (value_of (run_stages alarmed start no_trace))
      (value_of (run_all alarmed start no_trace)) AllStages-alarmed refl refl

-- The antivirus fell over.
abbrev blind : List Stage
blind = quiet "filetype" ∷ broken "clamav" ∷ []

AllStages-blind : AllStages blind
AllStages-blind = ((λ ctx. Extends-refl ctx), ((λ ctx. Extends-refl ctx), tt))

suspicious≢open : FailMode.suspicious ≢ FailMode.fail_open
suspicious≢open e = cc

run_stages-not_clean_example :
    (verdict_of (facts (value_of (run_stages blind start no_trace)).0) default_policy).0 ≢ clean
unfolding program
run_stages-not_clean_example =
    run_stages-not_clean blind start (value_of (run_stages blind start no_trace)).0
      (value_of (run_stages blind start no_trace)).1 default_policy AllStages-blind refl refl
      suspicious≢open

some≢none : {n : ℕ} → some n ≢ none
some≢none e = cc

start-IsReady : IsReady start
unfolding program
start-IsReady = record {
  stages = (some≢none, some≢none);
  incomplete = some≢none;
  malformed = some≢none;
}

abbrev entry : Member
entry = record {
  index = 1;
  info = record {
    filename = "a.pdf";
    file_size = 100;
    flag_bits = 0;
    compress_type = 8;
    create_system = 0;
    external_attr = 0;
  };
}

abbrev world : World
world = record {
  size_of = λ _. 1000;
  end_record = λ _. counted (some 1);
  zip_error = λ _. none;
  open_failure = λ _. "";
  entries_of = λ _. entry.info ∷ [];
  read = λ _ _. record {
    entries = counted (some 1);
    zip_error = none;
    chunks =
        record { size = 60; write_error = none } ∷ record { size = 40; write_error = none } ∷ [];
    read_error = none;
    failure = "";
  };
  place = λ _ _. "/tmp/members/00001.bin";
  expired = λ _ _. false;
  extension = λ _. some ".pdf";
  human = λ _. "";
  summary = λ _. "";
}

world-IsRead : (path : String) (info : ZipInfo) → IsRead (world.read path info)
world-IsRead path info = (refl, refl, refl, refl)

-- The archive after its stages.
abbrev archive : ScanContext
archive = record start {
  budget = some (record { root_size = 1000; declared = 100; unpacked = 0; entries = 1 });
  members = entry ∷ [];
}

archive-IsReady : IsReady archive
unfolding program
archive-IsReady = record {
  stages = (some≢none, some≢none);
  incomplete = some≢none;
  malformed = some≢none;
}

expand-Ends_example : Ends (expand world alarmed 6 archive no_trace)
expand-Ends_example =
    expand-Ends world alarmed AllStages-alarmed world-IsRead 6 archive no_trace archive-IsReady
      (omega arith) (omega arith)

-- A member whose reading ends in the given exception.
abbrev damaged : PyError → World
damaged e = record world {
  read = λ path info. record (world.read path info) { read_error = some e };
}

abbrev is_escape {ℓ} : {A : Type ℓ} → Result A → Bool
is_escape escaped = true
is_escape _ = false

-- A damaged LZMA or BZIP2 member takes the pipeline down, a damaged DEFLATE member does not.
expand-damaged :
    (is_escape (expand (damaged other_error) blind 6 archive no_trace) ≡ true)
    × (is_escape (expand (damaged os_error) blind 6 archive no_trace) ≡ true)
    × (is_escape (expand (damaged zlib_error) blind 6 archive no_trace) ≡ false)
unfolding program mark_malformed
expand-damaged = (refl, refl, refl)

-- The archive of an infected file is blocked.
expand_verdict :
    (verdict_of (facts (value_of (expand world alarmed 6 archive no_trace)).0) default_policy).0
    ≡ malicious
unfolding program
expand_verdict = refl

abbrev stay : ScanContext → Trace → Result (ScanContext × Trace)
stay ctx t = returned (ctx, t)

abbrev scanned : ScanContext × Trace
scanned = value_of (scan_members world blind stay (entry ∷ []) archive no_trace)

abbrev locked_child : ScanContext
locked_child = record start { encrypted = true; failed_stages = "yara" ∷ [] }

adopt-IsCarried_example : IsCarried locked_child (adopt locked_child "#1" archive)
adopt-IsCarried_example = adopt-IsCarried locked_child archive "#1"

abbrev services : Services
services = record {
  sanitize = λ _ _ _. rebuilt "s1.pdf" "cd";
  hash_of = λ _. "ef";
  exists = λ _. true;
  allows = none;
}

services_solid :
    (path : String) (mime : Option String) (p : CdrProfile)
    → services.sanitize path mime p ≢ CdrOutcome.crashed
services_solid path mime p e = cc

abbrev calm : List Stage
calm = quiet "filetype" ∷ quiet "clamav" ∷ []

AllStages-calm : AllStages calm
AllStages-calm = ((λ ctx. Extends-refl ctx), ((λ ctx. Extends-refl ctx), tt))

abbrev no_result : ScanResult
no_result = judge services job "" (start, no_trace)

abbrev full_result : ScanResult
full_result = result_of no_result (process_full world services calm 6 weights job "/tmp/a")

process_full-clean_example :
    WasCleared full_result.facts job.policy
    × ((full_result.status ≡ done) ⊎ (job.policy.fail_mode ≡ FailMode.fail_open))
unfolding program
process_full-clean_example =
    process_full-clean world services calm 6 weights job "/tmp/a" full_result refl refl

-- An archive with one member that is none.
abbrev flat_world : World
flat_world = record world {
  entries_of = λ path. if str_eq path "/tmp/a" then entry.info ∷ [] else [];
}

abbrev opening : List Stage
opening =
    record { name = "structure"; attempt = λ ctx. finished (analyse flat_world "structure" ctx) }
    ∷ []

abbrev opened : ScanContext × Trace
opened = value_of (run_stages opening start no_trace)

abbrev archive_result : ScanResult
archive_result =
    result_of no_result (process_full flat_world services opening 6 weights job "/tmp/a")

-- A blocked file of a tenant who takes such files.
abbrev strict_job : ScanJob
strict_job = record job {
  policy = record default_policy { deliver_blocked = vulnscan.Risk.Model.DeliverBlocked.strict };
}

abbrev blocked_result : ScanResult
blocked_result =
    result_of no_result (process_full world services alarmed 6 weights strict_job "/tmp/a")

abbrev strict_artifact : SanitizedArtifact
strict_artifact = record {
  ref = "s1.pdf";
  profile = CdrProfile.strict;
  original_sha256 = "ab";
  sanitized_sha256 = "cd";
}

process_full-Ends_example : Ends (process_full world services alarmed 6 weights job "/tmp/a")
unfolding program
process_full-Ends_example =
    process_full-Ends services services_solid world alarmed weights job "/tmp/a" AllStages-alarmed
      world-IsRead start-IsReady some≢none

abbrev cached : CachedStructural
cached = record {
  sha256 = "ab";
  profile = CdrProfile.standard;
  facts = facts start;
  sanitized = some strict_artifact;
  rules_version = "1";
  stages = [];
}

abbrev cached_result : ScanResult
cached_result = result_of no_result (process_av_only services alarm weights job cached "/tmp/a")

cached_blocked : cached_result.sanitized ≡ none
unfolding program
cached_blocked = refl

process_av_only-clean_example :
    ((cached_result.verdict ≢ clean)
      ⊎ (((verdict_of cached.facts job.policy).0 ≡ clean)
          × WasCleared cached_result.facts job.policy))
    × ((cached_result.sanitized ≡ none) ⊎ (cached_result.verdict ≢ malicious))
unfolding program
process_av_only-clean_example =
    process_av_only-clean services alarm weights job cached "/tmp/a" cached_result refl
