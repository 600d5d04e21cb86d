-- ===== src/Worker/Deliver.antt =====
-- What the worker does with a result (services/worker/worker_app/main.py): the history, the status, the
-- cache, the second check, the shadow ledger, the slot, and the two queues of the notifier.
use vulnscan.Base.{
  ℕ, String, Bool, true, false, not, ◌&&◌, ◌||◌, Option, none, some, [], ◌∷◌, keep, map, ltb,
  if◌then◌else◌,
}
use vulnscan.Risk.Model.{
  ScanFacts, is_malicious, ScanStatus, done, failed, manual_review, Severity, Delivery,
}
use vulnscan.Risk.Verdicts.{verdict_on_failure}
use vulnscan.Scan.Model.{SanitizedArtifact, ScanJob}
use vulnscan.Scan.Process.{ScanResult, is_strict, is_detect}
use vulnscan.Notifier.Model.{
  DeadLetterReason, job_abandoned, parser_crash, scan_failed, delivery_failed, callback_failed,
}
use vulnscan.Cache.{structural_of, av_of, weights_key_for}
use vulnscan.Worker.Redis.{
  Act, pure, ◌>>=◌, read, write, swallow, status_in, set_status, signal, bury, push_callback,
  push_delivery, push_deep, keep_history, put_structural, put_av, note_shadow, release,
}
use vulnscan.Worker.Deep.{deep_reason, deep_job}
use vulnscan.Worker.Notify.{
  Env, is_blank, tenant_or_default, enqueue_callback, is_some, enqueue_delivery,
}
pub mod Copies
pub mod Writes
pub mod Status
pub mod Totals

-- `_record_history`
unfoldable pub record_history : Env → ScanJob → ScanResult → Act (Unit {0})
unfolding write
record_history env job result = swallow (
    write (
      keep_history (record {
        result = result;
        tenant = job.tenant;
        size = job.size;
        detected_mime = elim result.facts [ none ↦ none | some f ↦ f.detected_mime ];
        rules_version = env.rules_version;
        av_db_version = env.engine_version;
      })))

-- `ResultChannel.publish`
unfoldable pub publish : ScanResult → ℕ → Act (Unit {0})
unfolding write
publish result ttl_s = do _ ← write (set_status result ttl_s); write (signal result.scan_id)

-- `_store_cache`, with the facts.
unfoldable pub store_facts : Env → ScanJob → ScanResult → Option ScanFacts → Act (Unit {0})
unfolding write structural_of av_of weights_key_for
store_facts env job result none = pure tt
store_facts env job result (some facts) = do
  _ ← write (
      put_structural (structural_of job result facts env.rules_version)
        (weights_key_for job.policy))
  write (put_av (av_of result facts env.engine_version))

-- `_store_cache`
unfoldable pub store_cache : Env → ScanJob → ScanResult → Act (Unit {0})
unfolding store_facts
store_cache env job result = store_facts env job result result.facts

-- `_maybe_enqueue_deep`
unfoldable pub maybe_enqueue_deep : Env → ScanJob → ScanResult → Act (Unit {0})
unfolding write deep_reason deep_job
maybe_enqueue_deep env job result =
    if env.deep_mode || job.deep || not env.deep_enabled
    then pure tt
    else let reason = deep_reason result env.drawn in
      if is_blank reason then pure tt else write (push_deep (deep_job job reason env.fresh))

-- What the user would not get: a blocked file, or one that was not rebuilt though it had to be.
abbrev pub would_refuse : ScanJob → ScanResult → Bool
would_refuse job result =
    is_malicious result.verdict || (not (is_detect job.mode) && not (is_some result.sanitized))

-- `if job.policy.shadow_mode: ...`
unfoldable pub note_if_shadow : ScanJob → ScanResult → Act (Unit {0})
unfolding write
note_if_shadow job result =
    if job.policy.shadow_mode
    then write (
        note_shadow (record {
          tenant = job.policy.tenant;
          verdict = result.verdict;
          would_block = would_refuse job result;
          codes = map (λ f. f.code) (keep (λ f. ltb 0 f.score) result.findings);
          sha256 = result.sha256;
        }))
    else pure tt

-- `_observe_deep_change`, of which only the call of Redis is left: it reads the first result.
unfoldable pub observe_deep_change : ScanJob → Act (Unit {0})
unfolding read
observe_deep_change job =
    if is_blank job.parent_scan_id
    then pure tt
    else do _ ← read (status_in job.parent_scan_id); pure tt

-- `_deliver_deep` from the status on.
unfoldable pub hand_over : Env → ScanJob → ScanResult → Act (Unit {0})
unfolding write
hand_over env job result = do
  _ ← enqueue_callback env job result
  _ ← enqueue_delivery env job result
  write (release (tenant_or_default job.tenant) job.scan_id)

-- `_deliver_deep`
unfoldable pub deliver_deep : Env → ScanJob → ScanResult → Act (Unit {0})
unfolding write
deliver_deep env job result = do
  _ ← swallow (observe_deep_change job)
  _ ← write (set_status result env.dlq_status_ttl_s)
  hand_over env job result

abbrev pub is_done : ScanStatus → Bool
is_done done = true
is_done _ = false

-- `_deliver` of a job of the fast role, from the cache on.
unfoldable pub follow_up : Env → ScanJob → ScanResult → Act (Unit {0})
unfolding write
follow_up env job result = do
  _ ← if is_done result.status then store_cache env job result else pure tt
  _ ← maybe_enqueue_deep env job result
  _ ← note_if_shadow job result
  _ ← write (release (tenant_or_default job.tenant) job.scan_id)
  _ ← enqueue_callback env job result
  enqueue_delivery env job result

-- `_deliver` of a job of the fast role.
unfoldable pub deliver_fast : Env → ScanJob → ScanResult → ℕ → Act (Unit {0})
unfolding write
deliver_fast env job result ttl_s = do _ ← publish result ttl_s; follow_up env job result

-- `_deliver`, with the time that the status lives.
unfoldable pub deliver : Env → ScanJob → ScanResult → ℕ → Act (Unit {0})
deliver env job result ttl_s = do
  _ ← record_history env job result
  if job.deep then deliver_deep env job result else deliver_fast env job result ttl_s

-- `reason.value.upper()`
abbrev pub code_of : DeadLetterReason → String
code_of job_abandoned = "JOB_ABANDONED"
code_of parser_crash = "PARSER_CRASH"
code_of scan_failed = "SCAN_FAILED"
code_of delivery_failed = "DELIVERY_FAILED"
code_of callback_failed = "CALLBACK_FAILED"

-- `_failure_result`
unfoldable pub failure_result : ScanJob → String → String → ScanResult
unfolding verdict_on_failure
failure_result job code detail = record {
  scan_id = job.scan_id;
  sha256 = job.sha256;
  status = failed;
  verdict = verdict_on_failure job.policy.fail_mode;
  score = 0;
  findings =
      record {
        stage = "worker";
        code = code;
        severity = Severity.medium;
        detail = some detail;
        score = 0;
      }
      ∷ [];
  sanitized = none;
  stages = [];
  facts = none;
  shadow = false;
  allowlisted = false;
  deep = false;
  parent_scan_id = "";
}

-- The result that `_dead_letter` delivers.
unfoldable pub dead_result : ScanJob → DeadLetterReason → String → ScanResult
unfolding failure_result
dead_result job reason detail = record (failure_result job (code_of reason) detail) {
  status = manual_review;
}

-- `_dead_letter`
unfoldable pub dead_letter :
    Env → ScanJob → DeadLetterReason → String → Option String → Option ℕ → Act (Unit {0})
unfolding write dead_result
dead_letter env job reason detail stage delivered = do
  _ ← write (
      bury (record {
        scan_id = job.scan_id;
        sha256 = job.sha256;
        reason = reason;
        verdict = (dead_result job reason detail).verdict;
        detail = some detail;
        stage = stage;
        delivered = delivered;
        tenant = job.tenant;
        source = job.source;
      }))
  deliver env job (dead_result job reason detail) env.dlq_status_ttl_s
