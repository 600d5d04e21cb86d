-- ===== src/Worker/Handle/Slots.antt =====
-- The slot of a job that comes again after its end (`_handle` of services/worker/worker_app/main.py).
use vulnscan.Base.{
  String, Bool, true, Option, some, List, [], ◌∷◌, str_eq, eq_refl, ◌≡◌, refl, sym, ◌∙◌, subst,
}
use vulnscan.Risk.Model.{is_terminal}
use vulnscan.Scan.Model.{ScanJob}
use vulnscan.Scan.Process.{ScanResult}
use vulnscan.Worker.Redis.{
  Effect, beat, clear, ack, set_status, signal, set_attempt, drop_attempt, bury, push_callback,
  push_delivery, push_deep, keep_history, put_structural, put_av, note_shadow, release, Redis, Act,
  write, status_in,
}
use vulnscan.Worker.Logic.{
  Triple, Leaves, if-Triple, bind-Triple, pure-Triple, write-Triple, read-Triple, closed-Leaves,
}
use vulnscan.Worker.Emits.{Emits, pure-Emits, write-Emits, bind-Emits, Emits-weaken, Emits-keeps}
use vulnscan.Worker.Notify.{Env, result_ttl_s}
use vulnscan.Worker.Deliver.Copies.{
  may_tell, publish-Emits, enqueue_callback-Emits, enqueue_delivery-Emits,
}
use vulnscan.Worker.Handle.{Run, pass_on, handle_after, handle_kept, handle}
use vulnscan.Worker.Handle.Laws.{log_of}
use vulnscan.Worker.Handle.Acks.{at_end}

-- The writes of a job that comes again.
abbrev pub may_repeat : String → ScanJob → ScanResult → Effect → Bool
may_repeat entry job r (beat e) = true
may_repeat entry job r (clear e) = true
may_repeat entry job r (ack e) = str_eq e entry
may_repeat entry job r e = may_tell job r e

may_tell-may_repeat :
    (entry : String) (job : ScanJob) (r : ScanResult) (e : Effect)
    → may_tell job r e ≡ true
    → may_repeat entry job r e ≡ true
may_tell-may_repeat entry job r (beat x) h = refl
may_tell-may_repeat entry job r (clear x) h = refl
may_tell-may_repeat entry job r (ack x) h = cc
may_tell-may_repeat entry job r (set_status x y) h = h
may_tell-may_repeat entry job r (signal x) h = h
may_tell-may_repeat entry job r (set_attempt x) h = h
may_tell-may_repeat entry job r (drop_attempt x) h = h
may_tell-may_repeat entry job r (bury x) h = h
may_tell-may_repeat entry job r (push_callback x) h = h
may_tell-may_repeat entry job r (push_delivery x) h = h
may_tell-may_repeat entry job r (push_deep x) h = h
may_tell-may_repeat entry job r (keep_history x) h = h
may_tell-may_repeat entry job r (put_structural x y) h = h
may_tell-may_repeat entry job r (put_av x) h = h
may_tell-may_repeat entry job r (note_shadow x) h = h
may_tell-may_repeat entry job r (release x y) h = h

module _ (env : Env) (run : Run) (entry : String) (job : ScanJob) (r : ScanResult)
    (over : is_terminal r.status ≡ true) where
  pass_on-Repeat : Emits (may_repeat entry job r) (pass_on env entry job r)
  unfolding pass_on
  pass_on-Repeat = bind-Emits (told (publish-Emits env job r result_ttl_s)) (λ u.
      bind-Emits (told (enqueue_callback-Emits env job r)) (λ u.
        bind-Emits (told (enqueue_delivery-Emits env job r))
          (λ u. bind-Emits (write-Emits _ (eq_refl entry)) (λ u. pure-Emits))))
    where
      told : {m : Act (Unit {0})} → Emits (may_tell job r) m → Emits (may_repeat entry job r) m
      told h = Emits-weaken (may_tell-may_repeat entry job r) h

  module _ {V : Type 0} (f : List Effect → V) (v : V)
      (same : (e : Effect) (log : List Effect)
        → may_repeat entry job r e ≡ true
        → f (e ∷ log) ≡ f log) where
    abbrev Same : List Effect → Type 0
    Same l = f l ≡ v

    abbrev Over : List Effect → Type 0
    Over l = (status_in job.scan_id l ≡ some r) × Same l

    handle_after-pass_on :
        (completed : Option ScanResult)
        → completed ≡ some r
        → handle_after env run entry job completed ≡ pass_on env entry job r
    unfolding handle_after
    handle_after-pass_on completed h = rw (h, over) refl

    handle_after-Same :
        (completed : Option ScanResult)
        → Triple
            (λ l. (completed ≡ some r) × Same l)
            (handle_after env run entry job completed)
            (λ b. Same)
            Same
    handle_after-Same completed = record {
      runs = λ w c.
          subst (λ m. Leaves (λ b. Same) Same (m w)) (sym (handle_after-pass_on completed c.0))
            ((Emits-keeps Same (λ e l k g. same e l k ∙ g) pass_on-Repeat).runs w c.1);
    }

    handle_kept-Same : Triple Over (handle_kept env run entry job) (λ b. Same) Same
    unfolding handle_kept
    handle_kept-Same =
        bind-Triple (read-Triple (status_in job.scan_id) (λ l o. o.1) (λ l o. o)) handle_after-Same

    write-Same :
        (e : Effect) → may_repeat entry job r e ≡ true → Triple Same (write e) (λ u. Same) Same
    write-Same e h = Emits-keeps Same (λ e l k g. same e l k ∙ g) (write-Emits e h)

    handle-Same : Triple Over (handle env run entry job) (λ u. Same) Same
    unfolding handle status_in
    handle-Same =
        bind-Triple
          (write-Triple (λ l o. o.1) (λ l o. same (beat entry) l refl ∙ o.1)
            (λ l o. (o.0, same (beat entry) l refl ∙ o.1)))
          (λ u.
            bind-Triple
              (record {
                runs = λ w o.
                    closed-Leaves (handle_kept-Same.runs w o) (λ b. write-Same (clear entry) refl)
                      (write-Same (clear entry) refl);
              })
              (λ b.
                if-Triple b (λ h. write-Same (ack entry) (eq_refl entry))
                  (λ h. pure-Triple (λ l g. g))))

-- The slots given back, of a log.
unfoldable pub releases : List Effect → List (String × String)
releases [] = []
releases (release tenant scan_id ∷ log) = (tenant, scan_id) ∷ releases log
releases (_ ∷ log) = releases log

releases-more :
    (entry : String) (job : ScanJob) (r : ScanResult) (e : Effect) (log : List Effect)
    → may_repeat entry job r e ≡ true
    → releases (e ∷ log) ≡ releases log
unfolding releases
releases-more entry job r (beat x) log h = refl
releases-more entry job r (clear x) log h = refl
releases-more entry job r (ack x) log h = refl
releases-more entry job r (set_status x y) log h = refl
releases-more entry job r (signal x) log h = refl
releases-more entry job r (set_attempt x) log h = refl
releases-more entry job r (drop_attempt x) log h = refl
releases-more entry job r (bury x) log h = refl
releases-more entry job r (push_callback x) log h = refl
releases-more entry job r (push_delivery x) log h = refl
releases-more entry job r (push_deep x) log h = refl
releases-more entry job r (keep_history x) log h = refl
releases-more entry job r (put_structural x y) log h = refl
releases-more entry job r (put_av x) log h = refl
releases-more entry job r (note_shadow x) log h = refl
releases-more entry job r (release x y) log h = cc

-- The handling of a job whose scan has a terminal status gives no slot back: a slot that the first
-- handling did not come to give back is kept until it expires.
pub handle-keeps_slot :
    (env : Env) (run : Run) (entry : String) (job : ScanJob) (r : ScanResult) (w : Redis)
    → status_in job.scan_id w.log ≡ some r
    → is_terminal r.status ≡ true
    → releases (log_of (handle env run entry job w)) ≡ releases w.log
handle-keeps_slot env run entry job r w h over = at_end (
    (handle-Same env run entry job r over releases (releases w.log)
        (releases-more entry job r)).runs
      w (h, refl))
