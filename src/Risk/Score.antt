-- ===== src/Risk/Score.antt =====
-- The score of a list of findings (`score_of` of packages/vscommon/scoring.py).
use vulnscan.Base.{
  ℕ, min, max, Bool, List, [], ◌∷◌, Dict, get_or, insert, sum_values, any, leb, if◌then◌else◌,
}
use vulnscan.Risk.Model.{Finding}
use vulnscan.Risk.Families.{family_of}
pub mod Spec
pub mod Laws

-- `any(f.score >= 100 for f in findings)`
abbrev pub has_critical : List Finding → Bool
has_critical = any (λ f. leb 100 f.score)

-- `strongest[family] = max(strongest.get(family, 0), finding.score)`
abbrev pub note_strongest : Dict ℕ → Finding → Dict ℕ
note_strongest strongest f =
    let family = family_of f.code in
    insert family (max (get_or family strongest 0) f.score) strongest

-- The loop of `score_of`.
unfoldable pub strongest_of : List Finding → Dict ℕ → Dict ℕ
strongest_of [] strongest = strongest
strongest_of (f ∷ fs) strongest = strongest_of fs (note_strongest strongest f)

-- `score_of`
unfoldable pub score_of : List Finding → ℕ
score_of findings =
    if has_critical findings then 100 else min 100 (sum_values (strongest_of findings []))
