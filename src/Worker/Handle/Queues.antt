-- ===== src/Worker/Handle/Queues.antt =====
-- The queues that the handling of a job puts tasks in (`_handle` of services/worker/worker_app/main.py).
use vulnscan.Base.{String, true, List, [], ◌∷◌, eq_iff, ◌≡◌, refl, ◌∙◌, ◌≢◌, arith, if◌then◌else◌}
use vulnscan.Scan.Model.{ScanJob}
use vulnscan.Notifier.Model.{DeliveryTask}
use vulnscan.Worker.Redis.{
  Effect, beat, clear, ack, set_status, signal, set_attempt, drop_attempt, bury, push_callback,
  push_delivery, push_deep, keep_history, put_structural, put_av, note_shadow, release, Redis,
  is_acked,
}
use vulnscan.Worker.Logic.{map-Leaves, Grows, Grows-keeps}
use vulnscan.Worker.Notify.{Env}
use vulnscan.Worker.Handle.{Run, handle}
use vulnscan.Worker.Handle.Laws.{log_of}
use vulnscan.Worker.Handle.Acks.{at_end}
use vulnscan.Worker.Handle.Writes.{may_handle, handle-May}

-- The jobs for the deep role, of a log.
unfoldable pub deep_jobs : List Effect → List ScanJob
deep_jobs [] = []
deep_jobs (push_deep job ∷ log) = job ∷ deep_jobs log
deep_jobs (_ ∷ log) = deep_jobs log

-- The tasks that say that their copy was rebuilt from a blocked file.
unfoldable pub rebuilt_copies : List Effect → List DeliveryTask
rebuilt_copies [] = []
rebuilt_copies (push_delivery task ∷ log) =
    if task.rebuilt_from_blocked then task ∷ rebuilt_copies log else rebuilt_copies log
rebuilt_copies (_ ∷ log) = rebuilt_copies log

deep_jobs-more :
    (entry : String) (job : ScanJob) (e : Effect) (log : List Effect)
    → job.deep ≡ true
    → may_handle entry job e ≡ true
    → deep_jobs (e ∷ log) ≡ deep_jobs log
unfolding deep_jobs
deep_jobs-more entry job (beat x) log h k = refl
deep_jobs-more entry job (clear x) log h k = refl
deep_jobs-more entry job (ack x) log h k = refl
deep_jobs-more entry job (set_status x y) log h k = refl
deep_jobs-more entry job (signal x) log h k = refl
deep_jobs-more entry job (set_attempt x) log h k = refl
deep_jobs-more entry job (drop_attempt x) log h k = refl
deep_jobs-more entry job (bury x) log h k = refl
deep_jobs-more entry job (push_callback x) log h k = refl
deep_jobs-more entry job (push_delivery x) log h k = refl
deep_jobs-more entry job (push_deep x) log h k = ground arith
deep_jobs-more entry job (keep_history x) log h k = refl
deep_jobs-more entry job (put_structural x y) log h k = refl
deep_jobs-more entry job (put_av x) log h k = refl
deep_jobs-more entry job (note_shadow x) log h k = refl
deep_jobs-more entry job (release x y) log h k = refl

is_acked-other :
    (entry other : String) (job : ScanJob) (e : Effect) (log : List Effect)
    → other ≢ entry
    → may_handle entry job e ≡ true
    → is_acked other (e ∷ log) ≡ is_acked other log
unfolding is_acked
is_acked-other entry other job (beat x) log h k = refl
is_acked-other entry other job (clear x) log h k = refl
is_acked-other entry other job (ack x) log h k = ground (arith, eq_iff x entry, eq_iff x other)
is_acked-other entry other job (set_status x y) log h k = refl
is_acked-other entry other job (signal x) log h k = refl
is_acked-other entry other job (set_attempt x) log h k = refl
is_acked-other entry other job (drop_attempt x) log h k = refl
is_acked-other entry other job (bury x) log h k = refl
is_acked-other entry other job (push_callback x) log h k = refl
is_acked-other entry other job (push_delivery x) log h k = refl
is_acked-other entry other job (push_deep x) log h k = refl
is_acked-other entry other job (keep_history x) log h k = refl
is_acked-other entry other job (put_structural x y) log h k = refl
is_acked-other entry other job (put_av x) log h k = refl
is_acked-other entry other job (note_shadow x) log h k = refl
is_acked-other entry other job (release x y) log h k = refl

-- What every write that the handling admits leaves as it is, the handling leaves.
handle-same :
    {V : Type 0} (f : List Effect → V) (env : Env) (run : Run) (entry : String) (job : ScanJob)
    (w : Redis)
    → ((e : Effect) (log : List Effect) → may_handle entry job e ≡ true → f (e ∷ log) ≡ f log)
    → f (log_of (handle env run entry job w)) ≡ f w.log
handle-same f env run entry job w h =
    at_end (map-Leaves (λ u l. kept) (λ l. kept) ((handle-May env run entry job).grows w))
  where
    kept : {l : List Effect} → Grows (may_handle entry job) w.log l → f l ≡ f w.log
    kept g = Grows-keeps (λ l. f l ≡ f w.log) (λ e l k i. h e l k ∙ i) g refl

-- However the calls and the run end, the handling of a job of the deep role puts no job in the queue of
-- the deep role.
pub handle-deep :
    (env : Env) (run : Run) (entry : String) (job : ScanJob) (w : Redis)
    → job.deep ≡ true
    → deep_jobs (log_of (handle env run entry job w)) ≡ deep_jobs w.log
handle-deep env run entry job w h =
    handle-same deep_jobs env run entry job w (λ e log. deep_jobs-more entry job e log h)

-- The handling of a job acknowledges no other entry.
pub handle-other :
    (env : Env) (run : Run) (entry other : String) (job : ScanJob) (w : Redis)
    → other ≢ entry
    → is_acked other (log_of (handle env run entry job w)) ≡ is_acked other w.log
handle-other env run entry other job w h =
    handle-same (is_acked other) env run entry job w
      (λ e log. is_acked-other entry other job e log h)
