-- ===== src/Risk/Model.antt =====
-- The data of the Risk Engine (packages/vscommon/models.py): verdicts, findings, the facts of a
-- scan and the policy of a tenant.
use vulnscan.Base.{
  ℕ, String, Bool, true, false, ◌&&◌, ◌||◌, not, Option, none, some, List, [], ◌++◌, map, Dict,
  contains, union, keep, ℤ,
}

pub data Verdict : Type 0 where
  clean suspicious malicious unsupported encrypted error : Verdict

pub data ScanStatus : Type 0 where
  queued scanning done failed manual_review : ScanStatus

pub data Severity : Type 0 where
  info low medium high critical : Severity

pub data CdrProfile : Type 0 where
  light standard strict : CdrProfile

pub data ScanMode : Type 0 where
  detect sanitize both : ScanMode

pub data FailMode : Type 0 where
  fail_closed suspicious fail_open : FailMode

-- `Literal["block", "mark"]`
pub data OnUnavailable : Type 0 where
  block mark : OnUnavailable

-- `Literal["never", "strict"]`
pub data DeliverBlocked : Type 0 where
  never strict : DeliverBlocked

-- `verdict in UNSCANNABLE_VERDICTS`
unfoldable pub is_unscannable : Verdict → Bool
is_unscannable encrypted = true
is_unscannable unsupported = true
is_unscannable _ = false

unfoldable pub is_malicious : Verdict → Bool
is_malicious malicious = true
is_malicious _ = false

-- `status in TERMINAL_STATUSES`
unfoldable pub is_terminal : ScanStatus → Bool
is_terminal done = true
is_terminal manual_review = true
is_terminal _ = false

pub record Finding : Type 0 where
  pub stage : String
  pub code : String
  pub severity : Severity
  pub detail : Option String
  pub score : ℕ

-- The fields of the destination that the policy only carries.
pub record Delivery : Type 0 where
  pub endpoint : String
  pub bucket : String
  pub prefix : String
  pub region : String
  pub credentials_id : String
  pub key_template : String

pub record TenantPolicy : Type 0 where
  pub tenant : String
  pub fail_mode : FailMode
  pub block_threshold : ℕ
  pub suspicious_threshold : ℕ
  pub default_profile : CdrProfile
  pub max_wait_ms : ℕ
  pub shadow_mode : Bool
  pub rate_limit_per_min : ℕ
  pub max_concurrent_scans : ℕ
  pub max_upload_bytes : ℕ
  pub public_rate_limit_per_min : ℕ
  pub widget_on_unavailable : OnUnavailable
  pub public_daily_tickets : ℕ
  pub deliver_blocked : DeliverBlocked
  pub delivery : Option Delivery
  pub delivery_error : String
  pub weight_overrides : Dict ℤ

-- `TenantPolicy()`
abbrev pub default_policy : TenantPolicy
default_policy = record {
  tenant = "default";
  fail_mode = FailMode.suspicious;
  block_threshold = 80;
  suspicious_threshold = 30;
  default_profile = standard;
  max_wait_ms = 2000;
  shadow_mode = false;
  rate_limit_per_min = 1200;
  max_concurrent_scans = 64;
  max_upload_bytes = 0;
  public_rate_limit_per_min = 60;
  widget_on_unavailable = block;
  public_daily_tickets = 5000;
  deliver_blocked = never;
  delivery = none;
  delivery_error = "";
  weight_overrides = [];
}

pub record ScanFacts : Type 0 where
  pub findings : List Finding
  pub detected_mime : Option String
  pub encrypted : Bool
  pub supported : Bool
  pub failed_stages : List String

-- `a or b`, where the empty text counts as absent.
abbrev pub or_else : Option String → Option String → Option String
or_else none b = b
or_else (some String.[]) b = b
or_else (some (String.◌∷◌ c s)) b = some (String.◌∷◌ c s)

abbrev pub codes_of : List Finding → List String
codes_of = map (λ f. f.code)

-- `ScanFacts.merge`
unfoldable pub merge : ScanFacts → ScanFacts → ScanFacts
merge self other = record {
  findings =
      self.findings ++ keep (λ f. not (contains f.code (codes_of self.findings))) other.findings;
  detected_mime = or_else self.detected_mime other.detected_mime;
  encrypted = self.encrypted || other.encrypted;
  supported = self.supported && other.supported;
  failed_stages = union self.failed_stages other.failed_stages;
}
