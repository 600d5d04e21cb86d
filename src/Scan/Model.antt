-- ===== src/Scan/Model.antt =====
-- The data of a scan: the job (packages/vscommon/models.py), the context
-- (services/worker/worker_app/stages/base.py), and what a run leaves behind.
use vulnscan.Base.{ℕ, String, Bool, Option, List}
use vulnscan.Risk.Model.{CdrProfile, ScanMode, TenantPolicy, Finding, ScanFacts}
use vulnscan.Risk.Weights.{WeightTable}
use vulnscan.Archive.Model.{Member, UnpackBudget}

-- `StageTiming`, without the time.
pub record StageTiming : Type 0 where
  pub stage : String
  pub ok : Bool

-- `SanitizedArtifact`: the object, the profile and the two hashes.
pub record SanitizedArtifact : Type 0 where
  pub ref : String
  pub profile : CdrProfile
  pub original_sha256 : String
  pub sanitized_sha256 : String

-- `CachedStructural`
pub record CachedStructural : Type 0 where
  pub sha256 : String
  pub profile : CdrProfile
  pub facts : ScanFacts
  pub sanitized : Option SanitizedArtifact
  pub rules_version : String
  pub stages : List StageTiming

-- `ScanJob`, without the times and the trace; the object that holds the file is its name.
pub record ScanJob : Type 0 where
  pub scan_id : String
  pub sha256 : String
  pub filename_ext : Option String
  pub declared_mime : Option String
  pub mode : ScanMode
  pub profile : CdrProfile
  pub policy : TenantPolicy
  pub tenant : Option String
  pub cached : Option CachedStructural
  pub deep : Bool
  pub deep_reason : String
  pub parent_scan_id : String
  pub source : String
  pub size : ℕ
  pub filename : Option String
  pub callback_url : Option String
  pub key_id : String

-- `ScanContext`, without the versions of the engines.
pub record ScanContext : Type 0 where
  pub job : ScanJob
  pub path : String
  pub detected_mime : Option String
  pub detected_ext : Option String
  pub findings : List Finding
  pub weights : WeightTable
  pub failed_stages : List String
  pub encrypted : Bool
  pub supported : Bool
  pub budget : Option UnpackBudget
  pub depth : ℕ
  pub members : List Member

-- How a call that changes the context ends: it returns, or an exception leaves it.
pub data Run : Type 0 where
  ran threw : ScanContext → Run

-- How a stage ends that is given a time limit.
pub data Attempt : Type 0 where
  finished : Run → Attempt
  timed_out : ScanContext → Attempt

-- `Stage`: the name, and what `run` does to a context within its time limit.
pub record Stage : Type 0 where
  pub name : String
  pub attempt : ScanContext → Attempt

-- What a run reports beside the context: the marks given to `on_stage`, and the timings.
pub record Trace : Type 0 where
  pub marks : List String
  pub timings : List StageTiming

-- How the work on a file ends: with a value, or with an exception that nothing in the pipeline
-- catches. The last case is the end of the fuel, which the source does not have.
pub data Result {ℓ} (A : Type ℓ) : Type ℓ where
  returned : A → Result A
  escaped out_of_fuel : Result A

infixl 5 ◌>>=◌
abbrev pub ◌>>=◌ {ℓ κ} : {A : Type ℓ} {B : Type κ} → Result A → (A → Result B) → Result B
returned a >>= f = f a
escaped >>= f = escaped
out_of_fuel >>= f = out_of_fuel
