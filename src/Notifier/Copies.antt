-- ===== src/Notifier/Copies.antt =====
-- The delivery of a rebuilt copy to the client's store: `_deliver`, `_put`, `_retry_delivery` and
-- `_delivery_failed` of services/notifier/notifierapp/main.py.
use Prim.Native.String.{◌++◌ as append}
use vulnscan.Base.{
  ℕ, ◌+◌, String, Bool, true, false, not, Option, none, some, List, [], ◌∷◌, ◌++◌, leb,
  if◌then◌else◌,
}
use vulnscan.Notifier.Model.{
  DeliveryTask, delivery_failed, Draft, Settings, Queues, publish, schedule_retry, backoff,
}
pub mod Laws

-- What reaches the client's store.
pub data Upload : Type 0 where
  file : String → Upload
  manifest : String → Bool → Bool → Upload

-- How a call of the store ends: well, or with the text of its error.
pub data Call : Type 0 where
  ok : Call
  fails : String → Call

-- What the stores answer to the three calls of `_put`.
pub record Stores : Type 0 where
  pub fetch : Call
  pub put_file : Call
  pub put_manifest : Call

-- `REBUILT_PREFIX` (packages/vscommon/delivery.py)
abbrev pub rebuilt_prefix : String
rebuilt_prefix = "_rebuilt/"

-- The name in the client's store.
abbrev pub target_name : DeliveryTask → String
target_name task = if task.rebuilt_from_blocked then append rebuilt_prefix task.name else task.name

abbrev pub is_given : Option String → Bool
is_given none = false
is_given (some a) = true

-- The end of `_put`: the manifest, after what has been put before.
unfoldable pub put_manifest_after : Stores → DeliveryTask → List Upload → List Upload × Call
put_manifest_after st task before = elim st.put_manifest [
  | fails e ↦ (before, fails e)
  | ok ↦ (
    before ++ manifest (target_name task) (is_given task.artifact) task.rebuilt_from_blocked ∷ [],
    ok,
  )
]

-- `_put`: what has reached the client's store, and how the call ended.
unfoldable pub put : Stores → DeliveryTask → List Upload × Call
unfolding put_manifest_after
put st task = elim task.artifact [
  | none ↦ put_manifest_after st task []
  | some ref ↦ elim st.fetch [
    | fails e ↦ ([], fails e)
    | ok ↦ elim st.put_file [
      | fails e ↦ ([], fails e)
      | ok ↦ put_manifest_after st task (file (target_name task) ∷ [])
    ]
  ]
]

module _ (s : Settings) where
  -- The arguments that `_delivery_failed` gives to `DeadLetter`.
  abbrev pub lost_copy : DeliveryTask → String → Draft
  lost_copy task detail = record {
    scan_id = task.scan_id;
    sha256 = "";
    reason = delivery_failed;
    verdict = none;
    detail = some (append task.destination.bucket (append ": " detail));
    tenant = task.tenant;
    source = none;
  }

  -- `_delivery_failed`
  unfoldable pub delivery_lost : DeliveryTask → String → Queues DeliveryTask → Queues DeliveryTask
  delivery_lost task detail q = publish (lost_copy task detail) q

  -- `_retry_delivery`. The text of the last failure counts the attempts, which `decimal` prints.
  unfoldable pub retry_delivery :
      (ℕ → String) → DeliveryTask → String → Queues DeliveryTask → Queues DeliveryTask
  unfolding delivery_lost
  retry_delivery decimal task detail q =
      let attempt = task.attempt + 1 in
      if leb s.max_attempts attempt
      then delivery_lost task
          (append "после " (append (decimal attempt) (append " попыток: " detail))) q
      else schedule_retry (record task { attempt = attempt }) (backoff s attempt) q

  -- `_deliver`: whether the credentials are known, and what the stores answer.
  unfoldable pub deliver :
      (ℕ → String)
      → Bool
      → Stores
      → DeliveryTask
      → Queues DeliveryTask
      → List Upload × Queues DeliveryTask
  unfolding put retry_delivery delivery_lost
  deliver decimal known st task q =
      if not known
      then (
        [],
        delivery_lost task
            (append "нет учётных данных «" (append task.destination.credentials_id "»")) q,
      )
      else let (up, end) = put st task in
        elim end [ ok ↦ (up, q) | fails e ↦ (up, retry_delivery decimal task e q) ]
