-- ===== src/Risk/Tests.antt =====
-- Runs of the Risk Engine (packages/vscommon/scoring.py, packages/vscommon/weights.py) on small
-- inputs, and each theorem at an input that meets its hypotheses.
use mathlib.Core.List.Perm
use vulnscan.Base.{
  ◌≤◌, ◌≢◌, ℕ, ◌<◌, String, true, false, none, some, List, [], ◌∷◌, lookup, get_or, insert,
  sum_values, pos, ◌≡◌, ◌↔◌, ◌⊎◌, refl, arith, if◌then◌else◌, min,
}
use vulnscan.Risk.Model.{
  Verdict, clean, malicious, FailMode, high, Finding, ScanFacts, TenantPolicy, default_policy,
  merge,
}
use vulnscan.Risk.Families.{family_of}
use vulnscan.Risk.Weights.{WeightTable, make_table, rule_for, with_overrides}
use vulnscan.Risk.Weights.Laws.{make_table-IsTable, with_overrides-rule_for}
use vulnscan.Risk.Score.{has_critical, strongest_of, score_of}
use vulnscan.Risk.Score.Spec.{family_max, families, sum_over, score_of-families}
use vulnscan.Risk.Score.Laws.{score_of-perm}
use vulnscan.Risk.Verdicts.{coverage_incomplete, verdict_of, should_stop_early}
use vulnscan.Risk.Verdicts.Laws.{
  IsCleared, verdict_of-clean_iff, verdict_of-score_iff, verdict_of-merge, verdict_of-milder_iff,
}

program : Unit {0}
unfolding score_of strongest_of family_of insert get_or sum_values verdict_of should_stop_early
    merge
program = tt

abbrev found : String → ℕ → Finding
found code score = record {
  stage = "structure";
  code = code;
  severity = high;
  detail = none;
  score = score;
}

-- Three views of one broken structure, and a script.
abbrev broken : List Finding
broken = found "PDF_DAMAGED" 30 ∷ found "PDF_MALFORMED" 35 ∷ found "PDF_JAVASCRIPT" 40 ∷ []

broken_score : score_of broken ≡ 75
unfolding program
broken_score = refl

abbrev facts_of : List Finding → ScanFacts
facts_of findings = record {
  findings = findings;
  detected_mime = some "application/pdf";
  encrypted = false;
  supported = true;
  failed_stages = [];
}

-- The antivirus did not answer.
abbrev no_antivirus : List Finding → ScanFacts
no_antivirus findings = record (facts_of findings) { failed_stages = "clamav" ∷ [] }

abbrev closed_policy : TenantPolicy
closed_policy = record default_policy { fail_mode = FailMode.fail_closed }

-- The rows of the table in docs/policies.md for a scan without the antivirus, and the one that is
-- missing there: with 45 points fail-closed gives a milder verdict than with none.
failure_table :
    ((verdict_of (no_antivirus []) closed_policy).0 ≡ malicious)
    × ((verdict_of (no_antivirus []) default_policy).0 ≡ Verdict.suspicious)
    × ((verdict_of (no_antivirus (found "PDF_OPENACTION" 45 ∷ [])) closed_policy).0
        ≡ Verdict.suspicious)
unfolding program
failure_table = (refl, refl, refl)

score_of-families_example : score_of broken ≡ (
    if has_critical broken
    then 100
    else min 100 (sum_over (λ k. family_max k broken) (families broken)))
score_of-families_example = score_of-families broken

score_of-perm_example :
    score_of (found "PDF_JS" 40 ∷ found "PDF_XFA" 30 ∷ [])
    ≡ score_of (found "PDF_XFA" 30 ∷ found "PDF_JS" 40 ∷ [])
score_of-perm_example = score_of-perm (Perm.swap (found "PDF_XFA" 30) (found "PDF_JS" 40) [])

verdict_of-clean_iff_example :
    ((verdict_of (no_antivirus []) default_policy).0 ≡ clean)
    ↔ IsCleared (no_antivirus []) default_policy
verdict_of-clean_iff_example = verdict_of-clean_iff (no_antivirus []) default_policy

verdict_of-score_iff_example :
    ((verdict_of (facts_of broken) default_policy).0 ≡ clean)
    ↔ ((verdict_of (facts_of broken) default_policy).1 < 30)
verdict_of-score_iff_example = verdict_of-score_iff (facts_of broken) default_policy (omega arith)

verdict_of-merge_example :
    ((verdict_of (facts_of []) default_policy).0 ≡ clean)
    × ((facts_of []).encrypted ≡ false)
    × ((facts_of []).supported ≡ true)
    × ((coverage_incomplete (facts_of []) ≡ false)
        ⊎ (default_policy.fail_mode ≡ FailMode.fail_open))
unfolding program
verdict_of-merge_example = verdict_of-merge (facts_of []) (facts_of []) default_policy refl

verdict_of-milder_iff_example :
    (((verdict_of (no_antivirus []) closed_policy).0 ≡ malicious)
      × ((verdict_of (no_antivirus (found "PDF_OPENACTION" 45 ∷ [])) closed_policy).0 ≢ malicious))
    ↔ ((FailMode.fail_closed ≡ FailMode.fail_closed)
        × (false ≡ false)
        × (true ≡ true)
        × (coverage_incomplete (no_antivirus []) ≡ true)
        × (score_of [] < 30)
        × (30 ≤ score_of (found "PDF_OPENACTION" 45 ∷ []))
        × (score_of (found "PDF_OPENACTION" 45 ∷ []) < 80))
verdict_of-milder_iff_example =
    verdict_of-milder_iff (no_antivirus []) closed_policy (found "PDF_OPENACTION" 45 ∷ [])

abbrev builtin : WeightTable
builtin = make_table [] false

with_overrides-rule_for_example :
    (rule_for (with_overrides builtin (("PDF_EMBEDDED_FILE", pos 80) ∷ [])) "PDF_EMBEDDED_FILE").0
    ≡ record { score = pos 80; severity = high }
unfolding lookup rule_for make_table
with_overrides-rule_for_example =
    with_overrides-rule_for builtin (("PDF_EMBEDDED_FILE", pos 80) ∷ []) "PDF_EMBEDDED_FILE"
      (make_table-IsTable [] false tt) (refl, tt)
