-- ===== src/Scan/Context.antt =====
-- What the stages do to the context: `ScanContext` of services/worker/worker_app/stages/base.py, and
-- the report of an archive of services/worker/worker_app/stages/archive_structure.py.
use Prim.Native.String.{◌++◌ as append}
use vulnscan.Base.{
  ℕ, String, Bool, true, false, not, ◌&&◌, ◌||◌, Option, none, some, List, [], ◌∷◌, ◌++◌, ℤ, pos,
  negsuc, contains, union, str_eq, leb, if◌then◌else◌,
}
use vulnscan.Risk.Model.{Finding, ScanFacts, codes_of, or_else}
use vulnscan.Risk.Weights.{Rule, rule_for}
use vulnscan.Archive.Model.{UnpackBudget, Inventory}
use vulnscan.Archive.Extract.{ArchiveError, budget_exceeded, unreadable}
use vulnscan.Scan.Model.{ScanContext, Run, ran, threw}
pub mod Growth

-- What `Finding(score=...)` accepts: 0 to 100.
unfoldable pub valid_score : ℤ → Option ℕ
valid_score (pos n) = if leb n 100 then some n else none
valid_score (negsuc n) = none

-- `any(f.code == code for f in self.findings)`
abbrev pub has_code : String → ScanContext → Bool
has_code code ctx = contains code (codes_of ctx.findings)

-- The finding that `add` appends, if its weight is one that a finding can have.
unfoldable pub append_finding : String → String → Option String → Rule → ScanContext → Run
unfolding valid_score
append_finding stage code detail rule ctx = elim (valid_score rule.score) [
  | none ↦ threw ctx
  | some n ↦ ran (record ctx {
    findings =
        ctx.findings
        ++ record {
          stage = stage;
          code = code;
          severity = rule.severity;
          detail = detail;
          score = n;
        }
          ∷ [];
  })
]

-- `weight_key or code`
abbrev pub key_or : Option String → String → String
key_or key code = elim (or_else key none) [ none ↦ code | some k ↦ k ]

-- `ScanContext.add`. Looking a weight up notes an unknown code, also when the finding is refused.
unfoldable pub add : String → String → Option String → Option String → ScanContext → Run
unfolding append_finding rule_for
add stage code detail key ctx =
    let found = rule_for ctx.weights (key_or key code) in
    if has_code code ctx
    then ran ctx
    else append_finding stage code detail found.0 (record ctx { weights = found.1 })

-- `f"{label}: {finding.detail}" if finding.detail else label`
abbrev pub labelled : String → Option String → String
labelled label detail = elim (or_else detail none) [
  | none ↦ label
  | some d ↦ append label (append ": " d)
]

-- The loop of `adopt`.
unfoldable pub adopt_findings : String → List Finding → List Finding → List Finding
adopt_findings label [] own = own
adopt_findings label (f ∷ fs) own =
    if contains f.code (codes_of own)
    then adopt_findings label fs own
    else adopt_findings label fs (own ++ record f { detail = some (labelled label f.detail) } ∷ [])

-- `ScanContext.adopt`
unfoldable pub adopt : ScanContext → String → ScanContext → ScanContext
unfolding adopt_findings
adopt child label ctx = record ctx {
  findings = adopt_findings label child.findings ctx.findings;
  failed_stages = union ctx.failed_stages child.failed_stages;
  encrypted = ctx.encrypted || child.encrypted;
  supported = ctx.supported && child.supported;
}

-- `ScanContext.facts`
unfoldable pub facts : ScanContext → ScanFacts
facts ctx = record {
  findings = ctx.findings;
  detected_mime = ctx.detected_mime;
  encrypted = ctx.encrypted;
  supported = ctx.supported;
  failed_stages = ctx.failed_stages;
}

-- `failed_stages.add(name)`
unfoldable pub mark_failed : String → ScanContext → ScanContext
mark_failed name ctx = record ctx { failed_stages = union ctx.failed_stages (name ∷ []) }

-- `mark_incomplete`
unfoldable pub mark_incomplete : String → String → ScanContext → Run
unfolding add
mark_incomplete stage reason ctx =
    add stage "ARCHIVE_INCOMPLETE" (some reason) none (record ctx { supported = false })

-- `ctx.supported = False` and the finding for an archive that cannot be read.
unfoldable pub mark_malformed : String → String → ScanContext → Run
unfolding add
mark_malformed stage reason ctx =
    add stage "ARCHIVE_MALFORMED" (some reason) none (record ctx { supported = false })

abbrev pub and_then : Run → (ScanContext → Run) → Run
and_then (ran ctx) f = f ctx
and_then (threw ctx) f = threw ctx

-- The first loop of `report`.
unfoldable pub report_problems : String → List (String × String) → ScanContext → Run
unfolding add
report_problems stage [] ctx = ran ctx
report_problems stage ((code, detail) ∷ problems) ctx =
    and_then (add stage code (some detail) none ctx) (report_problems stage problems)

-- `if inventory.encrypted: ctx.encrypted = True`
abbrev note_encrypted : Bool → ScanContext → ScanContext
note_encrypted locked ctx = if locked then record ctx { encrypted = true } else ctx

-- `"; ".join(sorted(set(...)))` is a text for a human; the argument `summary` prints it.
module _ (summary : List String → String) where
  -- `report`, where the inventory has reservations or has none.
  unfoldable pub report_incomplete : String → List String → ScanContext → Run
  unfolding mark_incomplete
  report_incomplete stage [] ctx = ran ctx
  report_incomplete stage (r ∷ rs) ctx = mark_incomplete stage (summary (r ∷ rs)) ctx

  -- `report`
  unfoldable pub report : String → Inventory → ScanContext → Run
  unfolding report_problems report_incomplete
  report stage inventory ctx =
      and_then (report_problems stage inventory.problems ctx)
        (λ c. report_incomplete stage inventory.incomplete (note_encrypted inventory.encrypted c))
