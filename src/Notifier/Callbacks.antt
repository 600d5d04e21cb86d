-- ===== src/Notifier/Callbacks.antt =====
-- The delivery of a result to its client: `_attempt`, `_reschedule` and `_give_up` of
-- services/notifier/notifierapp/main.py.
use Prim.Native.String.{◌++◌ as append}
use vulnscan.Base.{
  ℕ, zero, suc, ◌+◌, String, Bool, true, false, Option, none, some, List, [], ◌∷◌, leb,
  if◌then◌else◌,
}
use vulnscan.Notifier.Model.{
  CallbackTask, callback_failed, Draft, Settings, Queues, publish, schedule_retry, backoff,
}
pub mod Laws

-- What `CallbackSender.send` answers.
pub record SendOutcome : Type 0 where
  pub delivered : Bool
  pub retryable : Bool
  pub detail : String

-- `host_of` is the host of an address, which `urlsplit` finds.
module _ (host_of : String → String) (s : Settings) where
  -- The arguments that `_give_up` gives to `DeadLetter`.
  abbrev pub lost_callback : CallbackTask → String → Draft
  lost_callback task detail = record {
    scan_id = task.scan_id;
    sha256 = "";
    reason = callback_failed;
    verdict = none;
    detail = some (append (host_of task.url) (append ": " detail));
    tenant = task.tenant;
    source = none;
  }

  -- `_give_up`
  unfoldable pub give_up : CallbackTask → String → Queues CallbackTask → Queues CallbackTask
  give_up task detail q = publish (lost_callback task detail) q

  -- `_reschedule`
  unfoldable pub reschedule : CallbackTask → String → Queues CallbackTask → Queues CallbackTask
  unfolding give_up
  reschedule task detail q =
      let attempt = task.attempt + 1 in
      if leb s.max_attempts attempt
      then give_up task detail q
      else schedule_retry (record task { attempt = attempt }) (backoff s attempt) q

  -- `_attempt`
  unfoldable pub attempt_callback :
      SendOutcome → CallbackTask → Queues CallbackTask → Queues CallbackTask
  unfolding reschedule give_up
  attempt_callback outcome task q =
      if outcome.delivered
      then q
      else if outcome.retryable
      then reschedule task outcome.detail q
      else give_up task outcome.detail q

  -- The life of a task: what the receiver answers to each attempt, until the task is not put off again.
  -- It returns the delays that were waited, or nothing if the fuel ends first.
  unfoldable pub follow : (ℕ → SendOutcome) → ℕ → CallbackTask → Option (List ℕ)
  unfolding attempt_callback
  follow answers zero task = none
  follow answers (suc fuel) task =
      elim (attempt_callback (answers task.attempt) task
        (record { retries = []; dlq = [] })).retries [
          | [] ↦ some []
          | (later, delay) ∷ _ ↦ elim (follow answers fuel later) [
            | none ↦ none
            | some delays ↦ some (delay ∷ delays)
          ]
        ]
