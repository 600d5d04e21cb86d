-- ===== src/Notifier/Model.antt =====
-- The tasks of the notifier and the queues that it puts them in (packages/vscommon/models.py), with
-- the dead letter that stands for what could not be delivered.
use vulnscan.Base.{
  ℕ, ◌-◌, ◌*◌, ◌^◌, min, String, Bool, Option, none, some, List, [], ◌∷◌, ◌++◌, ◌>>=◌,
}
use vulnscan.Risk.Model.{Verdict, Delivery}

-- `CallbackTask`
pub record CallbackTask : Type 0 where
  pub scan_id : String
  pub tenant : Option String
  pub key_id : String
  pub url : String
  pub payload : String
  pub attempt : ℕ

-- `DeliveryTask`
pub record DeliveryTask : Type 0 where
  pub scan_id : String
  pub tenant : Option String
  pub destination : Delivery
  pub artifact : Option String
  pub name : String
  pub rebuilt_from_blocked : Bool
  pub payload : String
  pub attempt : ℕ

-- `DeadLetterReason`
pub data DeadLetterReason : Type 0 where
  job_abandoned parser_crash scan_failed delivery_failed callback_failed : DeadLetterReason

-- `DeadLetter`
pub record DeadLetter : Type 0 where
  pub scan_id : String
  pub sha256 : String
  pub reason : DeadLetterReason
  pub verdict : Verdict
  pub detail : Option String
  pub stage : Option String
  pub delivered : Option ℕ
  pub tenant : Option String
  pub source : String

-- The arguments of `DeadLetter(...)`: the verdict and the source have no default, so a call that leaves
-- one out raises.
pub record Draft : Type 0 where
  pub scan_id : String
  pub sha256 : String
  pub reason : DeadLetterReason
  pub verdict : Option Verdict
  pub detail : Option String
  pub tenant : Option String
  pub source : Option String

unfoldable pub validate : Draft → Option DeadLetter
validate d = do
  verdict ← d.verdict
  source ← d.source
  some (record {
    scan_id = d.scan_id;
    sha256 = d.sha256;
    reason = d.reason;
    verdict = verdict;
    detail = d.detail;
    stage = none;
    delivered = none;
    tenant = d.tenant;
    source = source;
  })

-- `NotifierSettings`, the times in whole seconds.
pub record Settings : Type 0 where
  pub max_attempts : ℕ
  pub base_backoff_s : ℕ
  pub max_backoff_s : ℕ

-- The tasks put off with their delays, and the dead letters.
pub record Queues (Task : Type 0) : Type 0 where
  pub retries : List (Task × ℕ)
  pub dlq : List DeadLetter

-- `try: await self._dlq.publish(DeadLetter(...))`, where an exception is logged and dropped.
unfoldable pub publish : {Task : Type 0} → Draft → Queues Task → Queues Task
unfolding validate
publish draft q = elim (validate draft) [
  | none ↦ q
  | some letter ↦ record q { dlq = q.dlq ++ letter ∷ [] }
]

-- `schedule_retry(task, delay)`
abbrev pub schedule_retry : {Task : Type 0} → Task → ℕ → Queues Task → Queues Task
schedule_retry task delay q = record q { retries = q.retries ++ (task, delay) ∷ [] }

-- `min(base_backoff_s * 2 ** (attempt - 1), max_backoff_s)`
unfoldable pub backoff : Settings → ℕ → ℕ
backoff s attempt = min (s.base_backoff_s * 2 ^ (attempt - 1)) s.max_backoff_s
