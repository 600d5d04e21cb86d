-- ===== src/Worker/Deep.antt =====
-- The second, thorough check of a file: which files it is for, its job, and how its verdict compares with
-- the first one (services/worker/worker_app/deep.py, and `_verdict_change` of main.py beside it).
use vulnscan.Base.{
  ℕ, String, Bool, true, false, Option, none, some, [], ◌∷◌, Dict, get_or, ltb, if◌then◌else◌,
}
use vulnscan.Risk.Model.{
  Verdict, clean, malicious, unsupported, encrypted, error, ScanStatus, failed, CdrProfile,
}
use vulnscan.Scan.Model.{ScanJob}
use vulnscan.Scan.Process.{ScanResult}

abbrev pub grey_zone : String
grey_zone = "серая зона: быстрая проверка не дала однозначного ответа"

abbrev pub sampled_clean : String
sampled_clean = "выборка чистых: измеряем пропуски"

abbrev pub unscannable_retry : String
unscannable_retry = "быстрая проверка не смогла разобрать файл"

-- `REASON_CODES`
abbrev pub reason_codes : Dict String
reason_codes =
    (grey_zone, "grey_zone") ∷ (sampled_clean, "sampled") ∷ (unscannable_retry, "unscannable") ∷ []

-- `reason_code`
unfoldable pub reason_code : String → String
unfolding get_or
reason_code reason = get_or reason reason_codes "other"

abbrev pub is_failed : ScanStatus → Bool
is_failed failed = true
is_failed _ = false

-- The verdict's part of `deep_reason`; `drawn` stands for `sample_rate > 0 and _sampled(sample_rate)`.
abbrev reason_for : Verdict → Bool → Bool → String
reason_for malicious has_failed drawn = ""
reason_for Verdict.suspicious has_failed drawn = grey_zone
reason_for unsupported has_failed drawn = unscannable_retry
reason_for clean has_failed drawn =
    if has_failed then unscannable_retry else if drawn then sampled_clean else ""
reason_for encrypted has_failed drawn = if has_failed then unscannable_retry else ""
reason_for error has_failed drawn = if has_failed then unscannable_retry else ""

-- `deep_reason`
unfoldable pub deep_reason : ScanResult → Bool → String
deep_reason result drawn = reason_for result.verdict (is_failed result.status) drawn

-- `deep_job`, with the identifier that `uuid4` gives it.
unfoldable pub deep_job : ScanJob → String → String → ScanJob
deep_job job reason fresh = record job {
  scan_id = fresh;
  parent_scan_id = job.scan_id;
  deep = true;
  deep_reason = reason;
  cached = none;
  profile = CdrProfile.strict;
}

-- `_VERDICT_RANK.get`
abbrev pub rank_of : Verdict → Option ℕ
rank_of clean = some 0
rank_of Verdict.suspicious = some 1
rank_of malicious = some 2
rank_of _ = none

-- The same verdict.
abbrev pub same_verdict : Verdict → Verdict → Bool
same_verdict clean clean = true
same_verdict Verdict.suspicious Verdict.suspicious = true
same_verdict malicious malicious = true
same_verdict unsupported unsupported = true
same_verdict encrypted encrypted = true
same_verdict error error = true
same_verdict _ _ = false

-- What `_verdict_change` answers.
pub data Change : Type 0 where
  unknown agree resolved stricter looser : Change

abbrev change_of : Option ℕ → Option ℕ → Change
change_of none none = unknown
change_of none (some b) = resolved
change_of (some a) none = unknown
change_of (some a) (some b) = if ltb a b then stricter else looser

-- `_verdict_change`
unfoldable pub verdict_change : Option ScanResult → ScanResult → Change
verdict_change none deep = unknown
verdict_change (some fast) deep =
    if same_verdict fast.verdict deep.verdict
    then agree
    else change_of (rank_of fast.verdict) (rank_of deep.verdict)
