-- ===== src/Worker/Handle/Marks.antt =====
-- What the run of a pipeline that dies leaves in the journal (services/worker/worker_app/main.py).
use vulnscan.Base.{ℕ, String, some, List, [], ◌∷◌, eq_refl, ◌≡◌, refl, arith}
use vulnscan.Worker.Failures.{Attempt}
use vulnscan.Worker.Redis.{
  Effect, set_attempt, returned, write, ask_with, status_in, attempt_in, is_acked,
}
use vulnscan.Worker.Works.{calm}
use vulnscan.Worker.Handle.{Run, killed, report_all}

-- A run of the pipeline that dies after reporting these stages.
abbrev pub crash : List String → Run
crash stages = record { stages = stages; outcome = killed }

-- The last stage reported.
abbrev pub last_of : String → List String → String
last_of s [] = s
last_of s (t ∷ ts) = last_of t ts

abbrev pub marked : String → ℕ → String → Attempt
marked scan_id n stage = record { scan_id = scan_id; attempt = n; stage = stage }

-- The log with the marks of a run.
abbrev pub marks : String → ℕ → List String → List Effect → List Effect
marks s n [] l = l
marks s n (t ∷ ts) l = marks s n ts (set_attempt (marked s n t) ∷ l)

pub report_all-marks :
    (s : String) (n : ℕ) (ss : List String) (l : List Effect)
    → report_all s n ss (calm l) ≡ returned tt (calm (marks s n ss l))
unfolding report_all write ask_with
report_all-marks s n [] l = refl
report_all-marks s n (t ∷ ts) l = report_all-marks s n ts (set_attempt (marked s n t) ∷ l)

pub attempt_in-marks :
    (s : String) (n : ℕ) (ss : List String) (x : String) (l : List Effect)
    → attempt_in s l ≡ some (marked s n x)
    → attempt_in s (marks s n ss l) ≡ some (marked s n (last_of x ss))
unfolding attempt_in
attempt_in-marks s n [] x l h = h
attempt_in-marks s n (t ∷ ts) x l h =
    attempt_in-marks s n ts t (set_attempt (marked s n t) ∷ l) (ground (arith, eq_refl s))

pub status_in-marks :
    (s j : String) (n : ℕ) (ss : List String) (l : List Effect)
    → status_in j (marks s n ss l) ≡ status_in j l
unfolding status_in
status_in-marks s j n [] l = refl
status_in-marks s j n (t ∷ ts) l = status_in-marks s j n ts (set_attempt (marked s n t) ∷ l)

pub is_acked-marks :
    (entry s : String) (n : ℕ) (ss : List String) (l : List Effect)
    → is_acked entry (marks s n ss l) ≡ is_acked entry l
unfolding is_acked
is_acked-marks entry s n [] l = refl
is_acked-marks entry s n (t ∷ ts) l = is_acked-marks entry s n ts (set_attempt (marked s n t) ∷ l)
