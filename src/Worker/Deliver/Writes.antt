-- ===== src/Worker/Deliver/Writes.antt =====
-- What passing on a result writes (`_deliver` of services/worker/worker_app/main.py).
use vulnscan.Base.{
  ℕ, Bool, true, false, not, ◌||◌, Option, none, some, str_eq, eq_refl, ◌≡◌, refl, arith,
}
use vulnscan.Risk.Model.{ScanFacts}
use vulnscan.Scan.Model.{ScanJob}
use vulnscan.Scan.Process.{ScanResult}
use vulnscan.Worker.Deep.{deep_reason}
use vulnscan.Worker.Redis.{
  swallow, Act, beat, clear, ack, set_status, signal, set_attempt, drop_attempt, bury,
  push_callback, push_delivery, push_deep, keep_history, put_structural, put_av, note_shadow,
  release, Effect,
}
use vulnscan.Worker.Deliver.{
  is_done, store_facts, record_history, store_cache, maybe_enqueue_deep, note_if_shadow,
  observe_deep_change, deliver_deep, deliver_fast, hand_over, follow_up, deliver,
}
use vulnscan.Worker.Notify.{Env, is_blank}
use vulnscan.Worker.Deliver.Copies.{
  is_admitted, may_tell, enqueue_callback-Emits, enqueue_delivery-Emits, publish-Emits,
}
use vulnscan.Worker.Emits.{
  Emits-weaken, Emits, pure-Emits, write-Emits, read-Emits, bind-Emits, swallow-Emits, if-Emits,
}

-- The writes that belong to the passing on of a result.
abbrev pub may_write : ScanJob → ScanResult → Effect → Bool
may_write job result (set_status r ttl) = str_eq r.scan_id result.scan_id
may_write job result (push_delivery task) = is_admitted job result task
may_write job result (push_deep deep) = not job.deep
may_write job result (ack entry) = false
may_write job result (beat entry) = false
may_write job result (clear entry) = false
may_write job result (set_attempt a) = false
may_write job result (drop_attempt s) = false
may_write job result (bury letter) = false
may_write job result _ = true

pub may_tell-may_write :
    (job : ScanJob) (result : ScanResult) (e : Effect)
    → may_tell job result e ≡ true
    → may_write job result e ≡ true
may_tell-may_write job result (beat x) h = cc
may_tell-may_write job result (clear x) h = cc
may_tell-may_write job result (ack x) h = cc
may_tell-may_write job result (set_status x y) h = h
may_tell-may_write job result (signal x) h = refl
may_tell-may_write job result (set_attempt x) h = cc
may_tell-may_write job result (drop_attempt x) h = cc
may_tell-may_write job result (bury x) h = cc
may_tell-may_write job result (push_callback x) h = refl
may_tell-may_write job result (push_delivery x) h = h
may_tell-may_write job result (push_deep x) h = cc
may_tell-may_write job result (keep_history x) h = cc
may_tell-may_write job result (put_structural x y) h = cc
may_tell-may_write job result (put_av x) h = cc
may_tell-may_write job result (note_shadow x) h = cc
may_tell-may_write job result (release x y) h = cc

told {ℓ} :
    {A : Type ℓ} {m : Act A} (job : ScanJob) (result : ScanResult)
    → Emits (may_tell job result) m
    → Emits (may_write job result) m
told job result h = Emits-weaken (may_tell-may_write job result) h

module _ (env : Env) (job : ScanJob) (result : ScanResult) where
  pub record_history-Emits : Emits (may_write job result) (record_history env job result)
  unfolding record_history
  record_history-Emits = swallow-Emits (write-Emits _ refl)

  store_facts-Emits :
      (f : Option ScanFacts) → Emits (may_write job result) (store_facts env job result f)
  unfolding store_facts
  store_facts-Emits none = pure-Emits
  store_facts-Emits (some f) = bind-Emits (write-Emits _ refl) (λ u. write-Emits _ refl)

  maybe_enqueue_deep-Emits : Emits (may_write job result) (maybe_enqueue_deep env job result)
  unfolding maybe_enqueue_deep
  maybe_enqueue_deep-Emits =
      if-Emits (env.deep_mode || job.deep || not env.deep_enabled) (λ h. pure-Emits)
        (λ h.
          if-Emits (is_blank (deep_reason result env.drawn)) (λ k. pure-Emits)
            (λ k. write-Emits _ (ground arith)))

  note_if_shadow-Emits : Emits (may_write job result) (note_if_shadow job result)
  unfolding note_if_shadow
  note_if_shadow-Emits = if-Emits job.policy.shadow_mode (λ h. write-Emits _ refl) (λ h. pure-Emits)

  observe_deep_change-Emits : Emits (may_write job result) (observe_deep_change job)
  unfolding observe_deep_change
  observe_deep_change-Emits =
      if-Emits (is_blank job.parent_scan_id) (λ h. pure-Emits)
        (λ h. bind-Emits (read-Emits _) (λ r. pure-Emits))

  pub hand_over-Emits : Emits (may_write job result) (hand_over env job result)
  unfolding hand_over
  hand_over-Emits = bind-Emits (told job result (enqueue_callback-Emits env job result)) (λ u.
      bind-Emits (told job result (enqueue_delivery-Emits env job result))
        (λ u. write-Emits _ refl))

  pub first-Emits : Emits (may_write job result) (swallow (observe_deep_change job))
  first-Emits = swallow-Emits observe_deep_change-Emits

  deliver_deep-Emits : Emits (may_write job result) (deliver_deep env job result)
  unfolding deliver_deep
  deliver_deep-Emits =
      bind-Emits first-Emits
        (λ u. bind-Emits (write-Emits _ (eq_refl result.scan_id)) (λ u. hand_over-Emits))

  pub follow_up-Emits : Emits (may_write job result) (follow_up env job result)
  unfolding follow_up store_cache
  follow_up-Emits =
      bind-Emits
        (if-Emits (is_done result.status) (λ h. store_facts-Emits result.facts) (λ h. pure-Emits))
        (λ u. bind-Emits maybe_enqueue_deep-Emits (λ u. bind-Emits note_if_shadow-Emits (λ u.
          bind-Emits (write-Emits _ refl) (λ u.
            bind-Emits (told job result (enqueue_callback-Emits env job result))
              (λ u. told job result (enqueue_delivery-Emits env job result))))))

  deliver_fast-Emits :
      (ttl_s : ℕ) → Emits (may_write job result) (deliver_fast env job result ttl_s)
  unfolding deliver_fast
  deliver_fast-Emits ttl_s =
      bind-Emits (told job result (publish-Emits env job result ttl_s)) (λ u. follow_up-Emits)

  pub deliver-Emits : (ttl_s : ℕ) → Emits (may_write job result) (deliver env job result ttl_s)
  unfolding deliver
  deliver-Emits ttl_s =
      bind-Emits record_history-Emits
        (λ u. if-Emits job.deep (λ h. deliver_deep-Emits) (λ h. deliver_fast-Emits ttl_s))
