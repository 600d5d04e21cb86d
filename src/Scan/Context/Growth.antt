-- ===== src/Scan/Context/Growth.antt =====
-- What the operations of the context (services/worker/worker_app/stages/base.py,
-- services/worker/worker_app/stages/archive_structure.py) keep: a scan only adds to what is known.
use mathlib.Core.List.{append_assoc, append-nil}
use vulnscan.Base.{
  ◌≤◌, String, Bool, true, false, Option, none, some, List, [], ◌∷◌, ◌++◌, ◌≡◌, refl, sym, ◌∙◌, ap,
  arith, contains, union, any-append, Option-cases, Bool-cases, inl, inr,
}
use vulnscan.Risk.Model.{Finding, codes_of}
use vulnscan.Risk.Weights.{Rule, rule_for}
use vulnscan.Risk.Score.{score_of}
use vulnscan.Risk.Score.Laws.{score_of-append}
use vulnscan.Archive.Model.{Inventory}
use vulnscan.Scan.Model.{ScanContext, Run, ran, threw}
use vulnscan.Scan.Context.{
  valid_score, append_finding, add, adopt_findings, adopt, mark_failed, mark_incomplete,
  mark_malformed, key_or, has_code, and_then, report_problems, report_incomplete, note_encrypted,
  report,
}

-- The second context knows what the first one knew: the findings of the first come first, a locked
-- file stays locked, an unsupported one unsupported, a failed stage failed; the rules of the weight
-- table, the depth and the job are the same.
pub record Extends (ctx ctx' : ScanContext) : Type 0 where
  pub more : List Finding
  pub findings : ctx'.findings ≡ ctx.findings ++ more
  pub encrypted : ctx.encrypted ≡ true → ctx'.encrypted ≡ true
  pub supported : ctx'.supported ≡ true → ctx.supported ≡ true
  pub failed :
      (s : String) → contains s ctx.failed_stages ≡ true → contains s ctx'.failed_stages ≡ true
  pub rules : ctx'.weights.rules ≡ ctx.weights.rules
  pub depth : ctx'.depth ≡ ctx.depth
  pub job : ctx'.job ≡ ctx.job

pub Extends-refl : (ctx : ScanContext) → Extends ctx ctx
Extends-refl ctx = record {
  more = [];
  findings = sym (append-nil ctx.findings);
  encrypted = λ h. h;
  supported = λ h. h;
  failed = λ s h. h;
  rules = refl;
  depth = refl;
  job = refl;
}

pub Extends-trans : {a b c : ScanContext} → Extends a b → Extends b c → Extends a c
Extends-trans {a} {b} {c} p q = record {
  more = p.more ++ q.more;
  findings =
      q.findings ∙ ap (λ fs. fs ++ q.more) p.findings ∙ append_assoc a.findings p.more q.more;
  encrypted = λ h. q.encrypted (p.encrypted h);
  supported = λ h. p.supported (q.supported h);
  failed = λ s h. q.failed s (p.failed s h);
  rules = q.rules ∙ p.rules;
  depth = q.depth ∙ p.depth;
  job = q.job ∙ p.job;
}

-- More knowledge never lowers the score.
pub Extends-score : {a b : ScanContext} → Extends a b → score_of a.findings ≤ score_of b.findings
Extends-score {a} {b} p = rw (p.findings) (score_of-append a.findings p.more)

abbrev pub context_of : Run → ScanContext
context_of (ran ctx) = ctx
context_of (threw ctx) = ctx

rules-rule_for :
    (ctx : ScanContext) (k : String) → (rule_for ctx.weights k).1.rules ≡ ctx.weights.rules
unfolding rule_for
rules-rule_for ctx k = ground arith

append_finding-Extends :
    (stage code : String) (detail : Option String) (rule : Rule) (ctx : ScanContext)
    → Extends ctx (context_of (append_finding stage code detail rule ctx))
unfolding append_finding
append_finding-Extends stage code detail rule ctx = elim (Option-cases (valid_score rule.score)) [
  | inl e ↦ rw (e, context_of) (Extends-refl ctx)
  | inr (n, e) ↦
      rw (e, context_of)
        (record {
          more =
              record {
                stage = stage;
                code = code;
                severity = rule.severity;
                detail = detail;
                score = n;
              }
              ∷ [];
          findings = refl;
          encrypted = λ h. h;
          supported = λ h. h;
          failed = λ s h. h;
          rules = refl;
          depth = refl;
          job = refl;
        })
]

pub add-Extends :
    (stage code : String) (detail key : Option String) (ctx : ScanContext)
    → Extends ctx (context_of (add stage code detail key ctx))
unfolding add
add-Extends stage code detail key ctx =
    let found = rule_for ctx.weights (key_or key code) in
    let noted : Extends ctx (record ctx { weights = found.1 }) = record {
      more = [];
      findings = sym (append-nil ctx.findings);
      encrypted = λ h. h;
      supported = λ h. h;
      failed = λ s h. h;
      rules = rules-rule_for ctx (key_or key code);
      depth = refl;
      job = refl;
    } in
    elim (Bool-cases (has_code code ctx)) [
      | inl e ↦ rw (e, context_of) (Extends-refl ctx)
      | inr e ↦
          rw (e, context_of)
            (Extends-trans noted
              (append_finding-Extends stage code detail found.0 (record ctx { weights = found.1 })))
    ]

contains-union :
    (s : String) (xs ys : List String) → contains s xs ≡ true → contains s (union xs ys) ≡ true
contains-union s xs ys h = any-append _ xs _ ∙ rw h refl

pub mark_failed-Extends : (name : String) (ctx : ScanContext) → Extends ctx (mark_failed name ctx)
unfolding mark_failed
mark_failed-Extends name ctx = record {
  more = [];
  findings = sym (append-nil ctx.findings);
  encrypted = λ h. h;
  supported = λ h. h;
  failed = λ s h. contains-union s ctx.failed_stages (name ∷ []) h;
  rules = refl;
  depth = refl;
  job = refl;
}

unsupported-Extends : (ctx : ScanContext) → Extends ctx (record ctx { supported = false })
unsupported-Extends ctx = record {
  more = [];
  findings = sym (append-nil ctx.findings);
  encrypted = λ h. h;
  supported = λ h. cc;
  failed = λ s h. h;
  rules = refl;
  depth = refl;
  job = refl;
}

pub mark_incomplete-Extends :
    (stage reason : String) (ctx : ScanContext)
    → Extends ctx (context_of (mark_incomplete stage reason ctx))
unfolding mark_incomplete
mark_incomplete-Extends stage reason ctx =
    Extends-trans (unsupported-Extends ctx)
      (add-Extends stage "ARCHIVE_INCOMPLETE" (some reason) none (record ctx { supported = false }))

pub mark_malformed-Extends :
    (stage reason : String) (ctx : ScanContext)
    → Extends ctx (context_of (mark_malformed stage reason ctx))
unfolding mark_malformed
mark_malformed-Extends stage reason ctx =
    Extends-trans (unsupported-Extends ctx)
      (add-Extends stage "ARCHIVE_MALFORMED" (some reason) none (record ctx { supported = false }))

pub and_then-Extends :
    (ctx : ScanContext) (r : Run) (f : ScanContext → Run)
    → Extends ctx (context_of r)
    → ((c : ScanContext) → Extends c (context_of (f c)))
    → Extends ctx (context_of (and_then r f))
and_then-Extends ctx (ran c) f p q = Extends-trans p (q c)
and_then-Extends ctx (threw c) f p q = p

report_problems-Extends :
    (stage : String) (ps : List (String × String)) (ctx : ScanContext)
    → Extends ctx (context_of (report_problems stage ps ctx))
unfolding report_problems
report_problems-Extends stage [] ctx = Extends-refl ctx
report_problems-Extends stage ((code, detail) ∷ ps) ctx =
    and_then-Extends ctx (add stage code (some detail) none ctx) (report_problems stage ps)
      (add-Extends stage code (some detail) none ctx) (report_problems-Extends stage ps)

note_encrypted-Extends :
    (locked : Bool) (ctx : ScanContext) → Extends ctx (note_encrypted locked ctx)
note_encrypted-Extends false ctx = Extends-refl ctx
note_encrypted-Extends true ctx = record {
  more = [];
  findings = sym (append-nil ctx.findings);
  encrypted = λ h. refl;
  supported = λ h. h;
  failed = λ s h. h;
  rules = refl;
  depth = refl;
  job = refl;
}

module _ (summary : List String → String) where
  report_incomplete-Extends :
      (stage : String) (rs : List String) (ctx : ScanContext)
      → Extends ctx (context_of (report_incomplete summary stage rs ctx))
  unfolding report_incomplete
  report_incomplete-Extends stage [] ctx = Extends-refl ctx
  report_incomplete-Extends stage (r ∷ rs) ctx =
      mark_incomplete-Extends stage (summary (r ∷ rs)) ctx

  pub report-Extends :
      (stage : String) (inventory : Inventory) (ctx : ScanContext)
      → Extends ctx (context_of (report summary stage inventory ctx))
  unfolding report
  report-Extends stage inventory ctx =
      and_then-Extends ctx (report_problems stage inventory.problems ctx) _
        (report_problems-Extends stage inventory.problems ctx)
        (λ c. Extends-trans (note_encrypted-Extends inventory.encrypted c) (
          report_incomplete-Extends stage inventory.incomplete
            (note_encrypted inventory.encrypted c)))

-- A container that adopts a member knows what it knew before.
adopt_findings-more :
    (label : String) (fs own : List Finding)
    → (more : List Finding) × (adopt_findings label fs own ≡ own ++ more)
unfolding adopt_findings
adopt_findings-more label [] own = ([], sym (append-nil own))
adopt_findings-more label (f ∷ fs) own = elim (Bool-cases (contains f.code (codes_of own))) [
  | inl e ↦ rw e (adopt_findings-more label fs own)
  | inr e ↦
      rw (e, context_of)
        (let (more, h) = adopt_findings-more label fs _ in (_, h ∙ append_assoc own _ more))
]

pub adopt-Extends :
    (child : ScanContext) (label : String) (ctx : ScanContext) → Extends ctx (adopt child label ctx)
unfolding adopt
adopt-Extends child label ctx = record {
  more = (adopt_findings-more label child.findings ctx.findings).0;
  findings = (adopt_findings-more label child.findings ctx.findings).1;
  encrypted = λ h. rw h refl;
  supported = λ h. ground arith;
  failed = λ s h. contains-union s ctx.failed_stages child.failed_stages h;
  rules = refl;
  depth = refl;
  job = refl;
}
