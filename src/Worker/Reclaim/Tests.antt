-- ===== src/Worker/Reclaim/Tests.antt =====
-- A small sweep (services/worker/worker_app/reclaim.py), and the theorem about it.
use vulnscan.Base.{
  ℕ, String, Bool, true, false, none, some, List, [], ◌∷◌, contains, keep, lookup, insert, str_eq,
  ◌≡◌, refl, Bool-cases, inl, inr,
}
use vulnscan.Risk.Model.{ScanMode, CdrProfile, default_policy}
use vulnscan.Archive.Inspect.Complete.{All}
use vulnscan.Scan.Model.{ScanJob}
use vulnscan.Worker.Reclaim.{PendingEntry, SweepResult, place, is_orphaned, gather, sweep}
use vulnscan.Worker.Reclaim.Sweeps.{orphans, IsSorted, IsSplit, sweep-IsSorted}

abbrev job : ScanJob
job = record {
  scan_id = "s1";
  sha256 = "ab";
  filename_ext = none;
  declared_mime = none;
  mode = ScanMode.both;
  profile = CdrProfile.standard;
  policy = default_policy;
  tenant = none;
  cached = none;
  deep = false;
  deep_reason = "";
  parent_scan_id = "";
  source = "raw/s1";
  size = 1000;
  filename = none;
  callback_url = none;
  key_id = "";
}

abbrev entry : String → ℕ → PendingEntry
entry id delivered = record {
  entry_id = id;
  consumer = "w1";
  idle_ms = 60000;
  delivered = delivered;
}

-- Of three jobs, one has a living worker and one was given out six times.
abbrev entries : List PendingEntry
entries = entry "1-0" 2 ∷ entry "2-0" 1 ∷ entry "3-0" 6 ∷ []

abbrev is_alive : String → Bool
is_alive id = str_eq id "2-0"

abbrev claim : List String → List (String × ScanJob)
claim asked = keep (λ c. contains c.0 asked) (("1-0", job) ∷ ("3-0", job) ∷ [])

All-keep {ℓ} : {A : Type ℓ} (p : A → Bool) (xs : List A) → All (λ x. p x ≡ true) (keep p xs)
All-keep p [] = tt
All-keep p (x ∷ xs) = elim (Bool-cases (p x)) [
  | inl e ↦ rw e (e, All-keep p xs)
  | inr e ↦ rw e (All-keep p xs)
]

swept :
    sweep is_alive 15000 5 entries claim
    ≡ some (record {
      reclaimed = record { entry_id = "1-0"; job = job; delivered = 2 } ∷ [];
      abandoned = record { entry_id = "3-0"; job = job; delivered = 6 } ∷ [];
    })
unfolding sweep gather is_orphaned place lookup insert
swept = refl

sweep-IsSorted_example :
    (r : SweepResult) × (sweep is_alive 15000 5 entries claim ≡ some r)
    × IsSorted is_alive 15000 5 entries r
    × IsSplit is_alive 15000 5 entries (claim (orphans is_alive 15000 5 entries)) r
sweep-IsSorted_example =
    sweep-IsSorted is_alive 15000 5 entries claim (refl, (refl, (refl, tt)))
      (λ asked.
        All-keep {A = String × ScanJob} (λ c. contains c.0 asked)
          (("1-0", job) ∷ ("3-0", job) ∷ []))
