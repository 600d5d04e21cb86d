-- ===== src/Worker/Deliver/Status.antt =====
-- The status that passing on a result leaves (`_deliver` of services/worker/worker_app/main.py), and what
-- an acknowledged entry needs.
use vulnscan.Base.{
  ℕ, String, Bool, true, false, not, List, ◌∷◌, eq_refl, ◌≡◌, refl, sym, ◌∙◌, arith,
}
use vulnscan.Scan.Model.{ScanJob}
use vulnscan.Scan.Process.{ScanResult}
use vulnscan.Worker.Redis.{
  Effect, beat, clear, ack, set_status, signal, set_attempt, drop_attempt, bury, push_callback,
  push_delivery, push_deep, keep_history, put_structural, put_av, note_shadow, release, Act, write,
  status_in, is_acked,
}
use vulnscan.Worker.Deliver.{publish, deliver_deep, deliver_fast, deliver}
use vulnscan.Worker.Notify.{Env, is_some}
use vulnscan.Worker.Deliver.Writes.{
  may_write, hand_over-Emits, first-Emits, follow_up-Emits, record_history-Emits,
}
use vulnscan.Worker.Logic.{Triple, write-Triple, bind-Triple, map-Triple, if-Triple}
use vulnscan.Worker.Emits.{Emits, write-Emits, Emits-weaken, Emits-keeps}

-- A status of the scan is stored.
abbrev pub has_status : String → List Effect → Bool
has_status scan_id l = is_some (status_in scan_id l)

-- Once there, it stays.
pub has_status-more :
    (s : String) (e : Effect) (l : List Effect)
    → has_status s l ≡ true
    → has_status s (e ∷ l) ≡ true
unfolding status_in
has_status-more s (beat x) l h = h
has_status-more s (clear x) l h = h
has_status-more s (ack x) l h = h
has_status-more s (set_status x y) l h = ground arith
has_status-more s (signal x) l h = h
has_status-more s (set_attempt x) l h = h
has_status-more s (drop_attempt x) l h = h
has_status-more s (bury x) l h = h
has_status-more s (push_callback x) l h = h
has_status-more s (push_delivery x) l h = h
has_status-more s (push_deep x) l h = h
has_status-more s (keep_history x) l h = h
has_status-more s (put_structural x y) l h = h
has_status-more s (put_av x) l h = h
has_status-more s (note_shadow x) l h = h
has_status-more s (release x y) l h = h

abbrev pub is_ack : Effect → Bool
is_ack (ack entry) = true
is_ack _ = false

-- Other writes acknowledge nothing.
is_acked-more :
    (s : String) (e : Effect) (l : List Effect)
    → not (is_ack e) ≡ true
    → is_acked s (e ∷ l) ≡ is_acked s l
unfolding is_acked
is_acked-more s (beat x) l h = refl
is_acked-more s (clear x) l h = refl
is_acked-more s (ack x) l h = cc
is_acked-more s (set_status x y) l h = refl
is_acked-more s (signal x) l h = refl
is_acked-more s (set_attempt x) l h = refl
is_acked-more s (drop_attempt x) l h = refl
is_acked-more s (bury x) l h = refl
is_acked-more s (push_callback x) l h = refl
is_acked-more s (push_delivery x) l h = refl
is_acked-more s (push_deep x) l h = refl
is_acked-more s (keep_history x) l h = refl
is_acked-more s (put_structural x y) l h = refl
is_acked-more s (put_av x) l h = refl
is_acked-more s (note_shadow x) l h = refl
is_acked-more s (release x y) l h = refl

may_write-no_ack :
    (job : ScanJob) (result : ScanResult) (e : Effect)
    → may_write job result e ≡ true
    → not (is_ack e) ≡ true
may_write-no_ack job result (beat x) h = refl
may_write-no_ack job result (clear x) h = refl
may_write-no_ack job result (ack x) h = h
may_write-no_ack job result (set_status x y) h = refl
may_write-no_ack job result (signal x) h = refl
may_write-no_ack job result (set_attempt x) h = refl
may_write-no_ack job result (drop_attempt x) h = refl
may_write-no_ack job result (bury x) h = refl
may_write-no_ack job result (push_callback x) h = refl
may_write-no_ack job result (push_delivery x) h = refl
may_write-no_ack job result (push_deep x) h = refl
may_write-no_ack job result (keep_history x) h = refl
may_write-no_ack job result (put_structural x y) h = refl
may_write-no_ack job result (put_av x) h = refl
may_write-no_ack job result (note_shadow x) h = refl
may_write-no_ack job result (release x y) h = refl

module _ (entry s : String) where
  abbrev pub Settled : List Effect → Type 0
  Settled l = has_status s l ≡ true

  -- The entry is acknowledged only if the scan has a status.
  abbrev pub Justified : List Effect → Type 0
  Justified l = is_acked entry l ≡ true → has_status s l ≡ true

  pub settles : (l : List Effect) → Settled l → Justified l
  settles l h k = h

  pub Justified-more :
      (e : Effect) (l : List Effect) → not (is_ack e) ≡ true → Justified l → Justified (e ∷ l)
  Justified-more e l h j k = has_status-more s e l (j (sym (is_acked-more entry e l h) ∙ k))

  -- A handler that acknowledges nothing.
  pub quiet-Triple {ℓ} :
      {A : Type ℓ} {m : Act A}
      → Emits (λ e. not (is_ack e)) m
      → Triple Justified m (λ a. Justified) Justified
  quiet-Triple h = Emits-keeps Justified Justified-more h

  pub keeping-Triple {ℓ} :
      {A : Type ℓ} {p : Effect → Bool} {m : Act A}
      → Emits p m
      → Triple Settled m (λ a. Settled) Justified
  keeping-Triple h =
      map-Triple (λ l k. k) (λ a l k. k) settles
        (Emits-keeps Settled (λ e l k. has_status-more s e l) h)

  pub ack-Triple : Triple Settled (write (ack entry)) (λ u. Settled) Justified
  ack-Triple = keeping-Triple (write-Emits {p = λ e. true} (ack entry) refl)

  module _ (env : Env) (job : ScanJob) (result : ScanResult) (named : result.scan_id ≡ s) where
    status_in-set_status :
        (ttl_s : ℕ) (l : List Effect) → has_status s (set_status result ttl_s ∷ l) ≡ true
    unfolding status_in
    status_in-set_status ttl_s l = ground (arith, named, eq_refl s)

    set_status-Triple :
        (ttl_s : ℕ) → Triple Justified (write (set_status result ttl_s)) (λ u. Settled) Justified
    set_status-Triple ttl_s =
        write-Triple (λ l j. j)
          (λ l j. settles (set_status result ttl_s ∷ l) (status_in-set_status ttl_s l))
          (λ l j. status_in-set_status ttl_s l)

    passed_on :
        {A : Type 0} {m : Act A}
        → Emits (may_write job result) m
        → Triple Justified m (λ a. Justified) Justified
    passed_on h = quiet-Triple (Emits-weaken (may_write-no_ack job result) h)

    -- Whatever fails on the way, the result is passed on only with its status stored.
    pub deliver-Settled :
        (ttl_s : ℕ) → Triple Justified (deliver env job result ttl_s) (λ u. Settled) Justified
    unfolding deliver deliver_deep deliver_fast publish
    deliver-Settled ttl_s = bind-Triple (passed_on (record_history-Emits env job result)) (λ u.
        if-Triple job.deep
          (λ h. bind-Triple (passed_on (first-Emits env job result)) (λ u.
            bind-Triple (set_status-Triple env.dlq_status_ttl_s)
              (λ u. keeping-Triple (hand_over-Emits env job result))))
          (λ h.
            bind-Triple
              (bind-Triple (set_status-Triple ttl_s)
                (λ u. keeping-Triple (write-Emits {p = λ e. true} (signal result.scan_id) refl)))
              (λ u. keeping-Triple (follow_up-Emits env job result))))
