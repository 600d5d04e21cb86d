-- ===== src/Worker/Notify.antt =====
-- What tells the client of a result: the two queues of the notifier, and the settings that the worker's
-- handlers read (`_enqueue_callback` and `_enqueue_delivery` of services/worker/worker_app/main.py).
use vulnscan.Base.{ℕ, String, Bool, true, false, not, ◌&&◌, ◌||◌, Option, none, some, if◌then◌else◌}
use vulnscan.Risk.Model.{is_malicious, Delivery}
use vulnscan.Scan.Model.{SanitizedArtifact, ScanJob}
use vulnscan.Scan.Process.{ScanResult, is_strict}
use vulnscan.Worker.Redis.{Act, pure, write, swallow, push_callback, push_delivery}

-- The settings of the worker and what else its handlers read: whether it runs in the deep role, whether
-- the deep role is on, whether the draw takes a clean file, the identifier that `uuid4` gives, the versions
-- of the rules and of the antivirus, `model_dump_json` of a result, and `Delivery.object_name`, which can
-- raise.
pub record Env : Type 0 where
  pub deep_mode : Bool
  pub deep_enabled : Bool
  pub drawn : Bool
  pub fresh : String
  pub max_parser_crashes : ℕ
  pub dlq_status_ttl_s : ℕ
  pub rules_version : String
  pub engine_version : String
  pub dump : ScanResult → String
  pub object_name : Delivery → ScanJob → ScanResult → Option String

-- `RESULT_TTL_S`
abbrev pub result_ttl_s : ℕ
result_ttl_s = 300

abbrev pub is_blank : String → Bool
is_blank String.[] = true
is_blank (String.◌∷◌ c s) = false

-- `job.tenant or "default"`
abbrev pub tenant_or_default : Option String → String
tenant_or_default none = "default"
tenant_or_default (some t) = if is_blank t then "default" else t

-- The text where it is given and not empty.
abbrev pub given : Option String → Option String
given none = none
given (some s) = if is_blank s then none else some s

-- `if job.callback_url:`
abbrev pub push_to : Env → ScanJob → ScanResult → Option String → Act (Unit {0})
push_to env job result none = pure tt
push_to env job result (some url) = swallow (
    write (
      push_callback (record {
        scan_id = result.scan_id;
        tenant = job.tenant;
        key_id = job.key_id;
        url = url;
        payload = env.dump result;
        attempt = 0;
      })))

-- `_enqueue_callback`
unfoldable pub enqueue_callback : Env → ScanJob → ScanResult → Act (Unit {0})
unfolding write
enqueue_callback env job result = push_to env job result (given job.callback_url)

abbrev pub ref_if : Bool → Option SanitizedArtifact → Option String
ref_if allowed none = none
ref_if allowed (some a) = if allowed then some a.ref else none

-- `result.sanitized.ref if (result.sanitized and allowed) else None`
unfoldable pub artifact_for : ScanJob → ScanResult → Option String
artifact_for job result =
    ref_if (not (is_malicious result.verdict) || is_strict job.policy.deliver_blocked)
      result.sanitized

abbrev pub is_some {ℓ} : {A : Type ℓ} → Option A → Bool
is_some none = false
is_some (some a) = true

-- The task, under the name that the destination gives; the name can raise, and then nothing is put.
abbrev pub push_copy : Env → ScanJob → ScanResult → Delivery → Option String → Act (Unit {0})
push_copy env job result destination none = pure tt
push_copy env job result destination (some name) = swallow (
    write (
      push_delivery (record {
        scan_id = result.scan_id;
        tenant = job.tenant;
        destination = destination;
        artifact = artifact_for job result;
        name = name;
        rebuilt_from_blocked = is_malicious result.verdict && is_some (artifact_for job result);
        payload = env.dump result;
        attempt = 0;
      })))

abbrev pub push_to_destination : Env → ScanJob → ScanResult → Option Delivery → Act (Unit {0})
push_to_destination env job result none = pure tt
push_to_destination env job result (some d) =
    push_copy env job result d (env.object_name d job result)

-- `_enqueue_delivery`
unfoldable pub enqueue_delivery : Env → ScanJob → ScanResult → Act (Unit {0})
unfolding write artifact_for
enqueue_delivery env job result =
    if is_blank job.policy.delivery_error
    then push_to_destination env job result job.policy.delivery
    else pure tt
