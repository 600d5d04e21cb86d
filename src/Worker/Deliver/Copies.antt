-- ===== src/Worker/Deliver/Copies.antt =====
-- What the queues of the notifier get of a result (`_enqueue_callback` and `_enqueue_delivery` of
-- services/worker/worker_app/main.py), and what `ResultChannel.publish` writes.
use vulnscan.Base.{
  ℕ, String, Bool, true, false, not, ◌&&◌, ◌||◌, Option, none, some, str_eq, eq_refl, ◌≡◌, refl,
  arith, Option-cases, inl, inr,
}
use vulnscan.Risk.Model.{is_malicious, Delivery}
use vulnscan.Scan.Model.{ScanJob}
use vulnscan.Scan.Process.{ScanResult, is_strict}
use vulnscan.Notifier.Model.{DeliveryTask}
use vulnscan.Worker.Redis.{set_status, signal, push_callback, push_delivery, Effect}
use vulnscan.Worker.Deliver.{publish}
use vulnscan.Worker.Notify.{
  Env, is_some, is_blank, given, push_to, push_copy, push_to_destination, enqueue_callback,
  artifact_for, enqueue_delivery,
}
use vulnscan.Worker.Emits.{Emits, pure-Emits, write-Emits, bind-Emits, swallow-Emits, if-Emits}

-- A task that takes the result's artifact along only if the file is not blocked or the policy wants
-- blocked files rebuilt, and says so if it is blocked.
abbrev pub is_admitted : ScanJob → ScanResult → DeliveryTask → Bool
is_admitted job result task =
    (not (is_some task.artifact)
      || not (is_malicious result.verdict)
      || is_strict job.policy.deliver_blocked)
    && (not (is_some task.artifact && is_malicious result.verdict) || task.rebuilt_from_blocked)
    && (not task.rebuilt_from_blocked || (is_some task.artifact && is_malicious result.verdict))
    && (str_eq task.scan_id result.scan_id)

-- The writes that tell the client of a result.
abbrev pub may_tell : ScanJob → ScanResult → Effect → Bool
may_tell job result (set_status r ttl) = str_eq r.scan_id result.scan_id
may_tell job result (signal s) = true
may_tell job result (push_callback task) = true
may_tell job result (push_delivery task) = is_admitted job result task
may_tell job result _ = false

module _ (env : Env) (job : ScanJob) (result : ScanResult) where
  push_to-Emits : (url : Option String) → Emits (may_tell job result) (push_to env job result url)
  push_to-Emits none = pure-Emits
  push_to-Emits (some url) = swallow-Emits (write-Emits _ refl)

  pub enqueue_callback-Emits : Emits (may_tell job result) (enqueue_callback env job result)
  unfolding enqueue_callback
  enqueue_callback-Emits = push_to-Emits (given job.callback_url)

  artifact_for-allowed :
      (not (is_some (artifact_for job result))
        || not (is_malicious result.verdict)
        || is_strict job.policy.deliver_blocked)
      ≡ true
  unfolding artifact_for
  artifact_for-allowed = elim (Option-cases result.sanitized) [
    | inl e ↦ rw e refl
    | inr (a, e) ↦ rw e (ground arith)
  ]

  copy-IsAdmitted :
      (d : Delivery) (name : String)
      → is_admitted job result (record {
        scan_id = result.scan_id;
        tenant = job.tenant;
        destination = d;
        artifact = artifact_for job result;
        name = name;
        rebuilt_from_blocked = is_malicious result.verdict && is_some (artifact_for job result);
        payload = env.dump result;
        attempt = 0;
      })
        ≡ true
  copy-IsAdmitted d name = ground (arith, artifact_for-allowed, eq_refl result.scan_id)

  push_copy-Emits :
      (d : Delivery) (name : Option String)
      → Emits (may_tell job result) (push_copy env job result d name)
  push_copy-Emits d none = pure-Emits
  push_copy-Emits d (some name) = swallow-Emits (write-Emits _ (copy-IsAdmitted d name))

  push_to_destination-Emits :
      (d : Option Delivery) → Emits (may_tell job result) (push_to_destination env job result d)
  push_to_destination-Emits none = pure-Emits
  push_to_destination-Emits (some d) = push_copy-Emits d (env.object_name d job result)

  pub enqueue_delivery-Emits : Emits (may_tell job result) (enqueue_delivery env job result)
  unfolding enqueue_delivery
  enqueue_delivery-Emits =
      if-Emits (is_blank job.policy.delivery_error)
        (λ h. push_to_destination-Emits job.policy.delivery) (λ h. pure-Emits)

  pub publish-Emits : (ttl_s : ℕ) → Emits (may_tell job result) (publish result ttl_s)
  unfolding publish
  publish-Emits ttl_s =
      bind-Emits (write-Emits _ (eq_refl result.scan_id)) (λ u. write-Emits _ refl)
