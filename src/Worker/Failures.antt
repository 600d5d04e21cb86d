-- ===== src/Worker/Failures.antt =====
-- What went wrong with an attempt at a file, and whether another attempt makes sense
-- (packages/vscommon/errors.py, packages/vscommon/journal.py, services/worker/worker_app/failure.py).
use vulnscan.Base.{ℕ, String, Bool, true, false, not, List, [], ◌∷◌, contains, leb, if◌then◌else◌}
use vulnscan.Scan.Stages.{risky_stages}

-- `ErrorKind`
pub data ErrorKind : Type 0 where
  infra content : ErrorKind

-- An exception as `classify` sees it: whether it is an instance of one of `_CONTENT_TYPES` or of one of
-- `_INFRA_TYPES`, the first part of the name of its module, and its own name.
pub record Error : Type 0 where
  pub is_content_type : Bool
  pub is_infra_type : Bool
  pub root : String
  pub name : String

-- `_INFRA_MODULES`
abbrev pub infra_modules : List String
infra_modules =
    "redis" ∷ "asyncpg" ∷ "opentelemetry" ∷ "prometheus_client" ∷ "grpc" ∷ "botocore" ∷ "boto3"
    ∷ "urllib3" ∷ "httpx" ∷ "httpcore" ∷ "socket" ∷ "ssl" ∷ []

-- `classify`
unfoldable pub classify : Error → ErrorKind
classify e =
    if e.is_content_type
    then content
    else if e.is_infra_type
    then infra
    else if contains e.root infra_modules
    then infra
    else content

abbrev pub is_infra : ErrorKind → Bool
is_infra infra = true
is_infra content = false

-- `should_retry`
unfoldable pub should_retry : Error → Bool
unfolding classify
should_retry e = is_infra (classify e)

-- `Attempt`, without its time.
pub record Attempt : Type 0 where
  pub scan_id : String
  pub attempt : ℕ
  pub stage : String

-- `crashed_on_content`
unfoldable pub crashed_on_content : Attempt → ℕ → Bool
crashed_on_content previous max_crashes =
    if not (contains previous.stage risky_stages) then false else leb max_crashes previous.attempt
