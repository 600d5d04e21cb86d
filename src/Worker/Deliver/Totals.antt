-- ===== src/Worker/Deliver/Totals.antt =====
-- Passing on a result comes to its end while Redis works (`_deliver` and `_dead_letter` of
-- services/worker/worker_app/main.py).
use vulnscan.Base.{ℕ, String, ◌||◌, not, Option, none, some}
use vulnscan.Risk.Model.{ScanFacts, Delivery}
use vulnscan.Scan.Model.{ScanJob}
use vulnscan.Scan.Process.{ScanResult}
use vulnscan.Notifier.Model.{DeadLetterReason}
use vulnscan.Worker.Deep.{deep_reason}
use vulnscan.Worker.Deliver.{
  is_done, store_facts, record_history, publish, store_cache, maybe_enqueue_deep, note_if_shadow,
  observe_deep_change, hand_over, deliver_deep, follow_up, deliver_fast, deliver, dead_result,
  dead_letter,
}
use vulnscan.Worker.Notify.{
  Env, is_blank, given, push_to, push_copy, push_to_destination, enqueue_callback, enqueue_delivery,
}
use vulnscan.Worker.Works.{
  Works, pure-Works, write-Works, read-Works, bind-Works, swallow-Works, if-Works,
}

module _ (env : Env) (job : ScanJob) (result : ScanResult) where
  push_to-Works : (url : Option String) → Works (push_to env job result url)
  push_to-Works none = pure-Works
  push_to-Works (some url) = swallow-Works (write-Works _)

  pub enqueue_callback-Works : Works (enqueue_callback env job result)
  unfolding enqueue_callback
  enqueue_callback-Works = push_to-Works (given job.callback_url)

  push_copy-Works : (d : Delivery) (name : Option String) → Works (push_copy env job result d name)
  push_copy-Works d none = pure-Works
  push_copy-Works d (some name) = swallow-Works (write-Works _)

  push_to_destination-Works : (d : Option Delivery) → Works (push_to_destination env job result d)
  push_to_destination-Works none = pure-Works
  push_to_destination-Works (some d) = push_copy-Works d (env.object_name d job result)

  pub enqueue_delivery-Works : Works (enqueue_delivery env job result)
  unfolding enqueue_delivery
  enqueue_delivery-Works =
      if-Works (is_blank job.policy.delivery_error) (push_to_destination-Works job.policy.delivery)
        pure-Works

  pub publish-Works : (ttl_s : ℕ) → Works (publish result ttl_s)
  unfolding publish
  publish-Works ttl_s = bind-Works (write-Works _) (λ u. write-Works _)

  store_facts-Works : (f : Option ScanFacts) → Works (store_facts env job result f)
  unfolding store_facts
  store_facts-Works none = pure-Works
  store_facts-Works (some f) = bind-Works (write-Works _) (λ u. write-Works _)

  maybe_enqueue_deep-Works : Works (maybe_enqueue_deep env job result)
  unfolding maybe_enqueue_deep
  maybe_enqueue_deep-Works =
      if-Works (env.deep_mode || job.deep || not env.deep_enabled) pure-Works
        (if-Works (is_blank (deep_reason result env.drawn)) pure-Works (write-Works _))

  note_if_shadow-Works : Works (note_if_shadow job result)
  unfolding note_if_shadow
  note_if_shadow-Works = if-Works job.policy.shadow_mode (write-Works _) pure-Works

  deliver_deep-Works : Works (deliver_deep env job result)
  unfolding deliver_deep observe_deep_change hand_over
  deliver_deep-Works =
      bind-Works
        (swallow-Works (
          if-Works (is_blank job.parent_scan_id) pure-Works
            (bind-Works (read-Works _) (λ r. pure-Works))))
        (λ u. bind-Works (write-Works _) (λ u.
          bind-Works enqueue_callback-Works
            (λ u. bind-Works enqueue_delivery-Works (λ u. write-Works _))))

  follow_up-Works : Works (follow_up env job result)
  unfolding follow_up store_cache
  follow_up-Works =
      bind-Works (if-Works (is_done result.status) (store_facts-Works result.facts) pure-Works)
        (λ u. bind-Works maybe_enqueue_deep-Works (λ u. bind-Works note_if_shadow-Works (λ u.
          bind-Works (write-Works _)
            (λ u. bind-Works enqueue_callback-Works (λ u. enqueue_delivery-Works)))))

  pub deliver-Works : (ttl_s : ℕ) → Works (deliver env job result ttl_s)
  unfolding deliver deliver_fast record_history
  deliver-Works ttl_s = bind-Works (swallow-Works (write-Works _)) (λ u.
      if-Works job.deep deliver_deep-Works
        (bind-Works (publish-Works ttl_s) (λ u. follow_up-Works)))

pub dead_letter-Works :
    (env : Env) (job : ScanJob) (reason : DeadLetterReason) (detail : String)
    (stage : Option String) (delivered : Option ℕ)
    → Works (dead_letter env job reason detail stage delivered)
unfolding dead_letter
dead_letter-Works env job reason detail stage delivered =
    bind-Works (write-Works _)
      (λ u. deliver-Works env job (dead_result job reason detail) env.dlq_status_ttl_s)
