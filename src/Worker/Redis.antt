-- ===== src/Worker/Redis.antt =====
-- Redis as the worker uses it: the writes that its queues, channels and journals make
-- (packages/vscommon/queue.py, journal.py, cache.py, quota.py, shadow.py), what is read back of them, and
-- the ways in which a call can end.
use vulnscan.Base.{
  ℕ, String, Bool, false, ◌||◌, Option, none, some, List, [], ◌∷◌, str_eq, if◌then◌else◌,
}
use vulnscan.Risk.Model.{Verdict}
use vulnscan.Scan.Model.{CachedStructural, ScanJob}
use vulnscan.Scan.Process.{ScanResult}
use vulnscan.Notifier.Model.{CallbackTask, DeliveryTask, DeadLetter}
use vulnscan.Cache.{CachedAv}
use vulnscan.Worker.Failures.{Error, Attempt}

-- `ScanRecord`
pub record ScanRecord : Type 0 where
  pub result : ScanResult
  pub tenant : Option String
  pub size : ℕ
  pub detected_mime : Option String
  pub rules_version : String
  pub av_db_version : String

-- What `ShadowLedger.record` is given.
pub record ShadowEntry : Type 0 where
  pub tenant : String
  pub verdict : Verdict
  pub would_block : Bool
  pub codes : List String
  pub sha256 : String

-- One write. `set_status` has the time to live in seconds, `put_structural` the key of the weights,
-- `release` the tenant and the scan.
pub data Effect : Type 0 where
  beat clear ack : String → Effect
  set_status : ScanResult → ℕ → Effect
  signal : String → Effect
  set_attempt : Attempt → Effect
  drop_attempt : String → Effect
  bury : DeadLetter → Effect
  push_callback : CallbackTask → Effect
  push_delivery : DeliveryTask → Effect
  push_deep : ScanJob → Effect
  keep_history : ScanRecord → Effect
  put_structural : CachedStructural → String → Effect
  put_av : CachedAv → Effect
  note_shadow : ShadowEntry → Effect
  release : String → String → Effect

-- How a call ends: it works; it fails without or with its effect, and the caller gets an exception; or
-- the process of the worker dies before it.
pub data Fault : Type 0 where
  works fails loses dies : Fault

-- The writes so far, the last one first, and the ends of the calls to come; after these, calls work.
pub record Redis : Type 0 where
  pub log : List Effect
  pub plan : List Fault

-- `ResultChannel.load_status`: what was stored, without the facts, which its JSON leaves out.
unfoldable pub status_in : String → List Effect → Option ScanResult
status_in scan_id [] = none
status_in scan_id (set_status r ttl ∷ log) =
    if str_eq r.scan_id scan_id then some (record r { facts = none }) else status_in scan_id log
status_in scan_id (_ ∷ log) = status_in scan_id log

-- `AttemptJournal.load`
unfoldable pub attempt_in : String → List Effect → Option Attempt
attempt_in scan_id [] = none
attempt_in scan_id (set_attempt a ∷ log) =
    if str_eq a.scan_id scan_id then some a else attempt_in scan_id log
attempt_in scan_id (drop_attempt s ∷ log) =
    if str_eq s scan_id then none else attempt_in scan_id log
attempt_in scan_id (_ ∷ log) = attempt_in scan_id log

-- The entry is acknowledged.
unfoldable pub is_acked : String → List Effect → Bool
is_acked entry [] = false
is_acked entry (ack e ∷ log) = str_eq e entry || is_acked entry log
is_acked entry (_ ∷ log) = is_acked entry log

-- How a handler ends.
pub data Ended {ℓ} (A : Type ℓ) : Type ℓ where
  returned : A → Redis → Ended A
  raised : Error → Redis → Ended A
  died : Redis → Ended A

abbrev pub Act {ℓ} : Type ℓ → Type ℓ
Act A = Redis → Ended A

abbrev pub continue {ℓ κ} : {A : Type ℓ} {B : Type κ} → Ended A → (A → Act B) → Ended B
continue (returned a w) f = f a w
continue (raised e w) f = raised e w
continue (died w) f = died w

infixl 5 ◌>>=◌
abbrev pub ◌>>=◌ {ℓ κ} : {A : Type ℓ} {B : Type κ} → Act A → (A → Act B) → Act B
m >>= f = λ w. continue (m w) f

abbrev pub pure {ℓ} : {A : Type ℓ} → A → Act A
pure a = λ w. returned a w

-- The exception that the client of Redis raises.
abbrev pub redis_error : Error
redis_error = record {
  is_content_type = false;
  is_infra_type = false;
  root = "redis";
  name = "ConnectionError";
}

-- A call that computes its answer and the log after it from the log before, with the ends planned.
unfoldable pub ask_with {ℓ} :
    {A : Type ℓ} → List Fault → (List Effect → A × List Effect) → List Effect → Ended A
ask_with [] f log = returned (f log).0 (record { log = (f log).1; plan = [] })
ask_with (works ∷ plan) f log = returned (f log).0 (record { log = (f log).1; plan = plan })
ask_with (fails ∷ plan) f log = raised redis_error (record { log = log; plan = plan })
ask_with (loses ∷ plan) f log = raised redis_error (record { log = (f log).1; plan = plan })
ask_with (dies ∷ plan) f log = died (record { log = log; plan = plan })

-- A call that reads.
unfoldable pub read {ℓ} : {A : Type ℓ} → (List Effect → A) → Act A
unfolding ask_with
read f w = ask_with w.plan (λ log. (f log, log)) w.log

-- A call that writes.
unfoldable pub write : Effect → Act (Unit {0})
unfolding ask_with
write e w = ask_with w.plan (λ log. (tt, e ∷ log)) w.log

-- `try: ... except Exception: ...`, where the exception is logged and dropped.
abbrev pub swallowed : Ended (Unit {0}) → Ended (Unit {0})
swallowed (returned u w) = returned u w
swallowed (raised e w) = returned tt w
swallowed (died w) = died w

abbrev pub swallow : Act (Unit {0}) → Act (Unit {0})
swallow m = λ w. swallowed (m w)

-- `try: ... except Exception as exc: ... else: ...`
abbrev pub attempted {ℓ κ} :
    {A : Type ℓ} {B : Type κ} → Ended A → (Error → Act B) → (A → Act B) → Ended B
attempted (returned a w) on_error on_value = on_value a w
attempted (raised e w) on_error on_value = on_error e w
attempted (died w) on_error on_value = died w

abbrev pub attempt {ℓ κ} : {A : Type ℓ} {B : Type κ} → Act A → (Error → Act B) → (A → Act B) → Act B
attempt m on_error on_value = λ w. attempted (m w) on_error on_value

-- `try: ... finally: ...`
abbrev pub closed {ℓ} : {A : Type ℓ} → Ended A → Act (Unit {0}) → Ended A
closed (returned a w) last = continue (last w) (λ u. pure a)
closed (raised e w) last = continue (last w) (λ u. raised e)
closed (died w) last = died w

abbrev pub finally {ℓ} : {A : Type ℓ} → Act A → Act (Unit {0}) → Act A
finally m last = λ w. closed (m w) last
