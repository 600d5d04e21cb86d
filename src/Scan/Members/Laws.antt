-- ===== src/Scan/Members/Laws.antt =====
-- What the members of an archive do to the context of the archive (`Pipeline._expand` of
-- services/worker/worker_app/pipeline.py, `analyse` of
-- services/worker/worker_app/stages/archive_structure.py): it only grows.
use vulnscan.Base.{
  ℕ, zero, suc, String, true, Option, none, some, List, [], ◌∷◌, refl, sym, inl, inr, Bool-cases,
}
use mathlib.Core.List.{append-nil}
use vulnscan.Archive.Model.{UnpackBudget, Member}
use vulnscan.Archive.Inspect.{inspect}
use vulnscan.Archive.Extract.{Outcome, ok, raised, thrown, budget_exceeded, unreadable}
use vulnscan.Scan.Model.{ScanContext, Run, ran, threw, Stage, Trace, Result}
use vulnscan.Scan.Context.{adopt, mark_incomplete, mark_malformed, report}
use vulnscan.Scan.Context.Growth.{
  Extends, Extends-refl, Extends-trans, context_of, adopt-Extends, and_then-Extends,
  mark_incomplete-Extends, mark_malformed-Extends, report-Extends,
}
use vulnscan.Scan.Stages.{stops, mark}
use vulnscan.Scan.Stages.Laws.{Yields, anything, Yields-bind, Yields-map}
use vulnscan.Scan.Members.{
  World, with_budget, take_back, settle_run, check_member, after_extract, visit, scan_members,
  is_flat, expand, member_text, budget_for, report_archive, analyse_opened, analyse,
}

pub with_budget-Extends : (b : UnpackBudget) (ctx : ScanContext) → Extends ctx (with_budget b ctx)
with_budget-Extends b ctx = record {
  more = [];
  findings = sym (append-nil ctx.findings);
  encrypted = λ h. h;
  supported = λ h. h;
  failed = λ s h. h;
  rules = refl;
  depth = refl;
  job = refl;
}

pub take_back-Extends :
    (b : UnpackBudget) (child ctx : ScanContext) → Extends ctx (take_back b child ctx)
take_back-Extends b child ctx = record {
  more = [];
  findings = sym (append-nil ctx.findings);
  encrypted = λ h. h;
  supported = λ h. h;
  failed = λ s h. h;
  rules = refl;
  depth = refl;
  job = refl;
}

with_members-Extends :
    (ms : List Member) (ctx : ScanContext) → Extends ctx (record ctx { members = ms })
with_members-Extends ms ctx = record {
  more = [];
  findings = sym (append-nil ctx.findings);
  encrypted = λ h. h;
  supported = λ h. h;
  failed = λ s h. h;
  rules = refl;
  depth = refl;
  job = refl;
}

-- What a step makes of a context extends it.
abbrev pub Grown {ℓ} : {A : Type ℓ} → ScanContext → ScanContext × A → Type 0
Grown ctx r = Extends ctx r.0

pub settle_run-Grown :
    (ctx : ScanContext) (r : Run) (t : Trace)
    → Extends ctx (context_of r)
    → Yields (Grown ctx) (settle_run r t)
settle_run-Grown ctx (ran c) t p = p
settle_run-Grown ctx (threw c) t p = tt

pub Grown-from :
    {a b : ScanContext} (r : Result (ScanContext × Trace))
    → Extends a b
    → Yields (Grown b) r
    → Yields (Grown a) r
Grown-from r p h = Yields-map _ _ r h (λ q k. Extends-trans p k)

module _ (w : World) (stages : List Stage) where
  module _ (inner : ScanContext → Trace → Result (ScanContext × Trace)) where
    pub incomplete-Grown :
        (reason : String) (b : UnpackBudget) (ctx : ScanContext) (t : Trace)
        → Yields (Grown ctx) (settle_run (mark_incomplete "archive" reason (with_budget b ctx)) t)
    incomplete-Grown reason b ctx t = settle_run-Grown ctx _ t (
        Extends-trans (with_budget-Extends b ctx)
          (mark_incomplete-Extends "archive" reason (with_budget b ctx)))

    pub malformed-Grown :
        (reason : String) (b : UnpackBudget) (ctx : ScanContext) (t : Trace)
        → Yields (Grown ctx) (settle_run (mark_malformed "archive" reason (with_budget b ctx)) t)
    malformed-Grown reason b ctx t = settle_run-Grown ctx _ t (
        Extends-trans (with_budget-Extends b ctx)
          (mark_malformed-Extends "archive" reason (with_budget b ctx)))

    pub adopted-Extends :
        (m : Member) (b : UnpackBudget) (child ctx : ScanContext)
        → Extends ctx (adopt child (member_text w m) (take_back b child ctx))
    adopted-Extends m b child ctx =
        Extends-trans (take_back-Extends b child ctx)
          (adopt-Extends child (member_text w m) (take_back b child ctx))

    after_extract-Grown :
        (m : Member) (b : UnpackBudget) (o : Outcome) (ctx : ScanContext) (t : Trace)
        (continue : ScanContext → Trace → Result (ScanContext × Trace))
        → ((c : ScanContext) (t' : Trace) → Yields (Grown c) (continue c t'))
        → Yields (Grown ctx) (after_extract w stages inner m b o ctx t continue)
    unfolding after_extract
    after_extract-Grown m b ok ctx t continue k =
        Yields-bind (λ _. Unit) (Grown ctx) (check_member w stages inner m b ctx t) _ (anything _)
          (λ r _. Grown-from _ (adopted-Extends m b r.0 ctx) (k _ r.1))
    after_extract-Grown m b (raised budget_exceeded) ctx t continue k = incomplete-Grown _ b ctx t
    after_extract-Grown m b (raised unreadable) ctx t continue k =
        Yields-bind (Grown ctx) (Grown ctx)
          (settle_run (mark_malformed "archive" _ (with_budget b ctx)) t) _
          (malformed-Grown _ b ctx t) (λ r p. Grown-from _ p (k r.0 r.1))
    after_extract-Grown m b (thrown e) ctx t continue k = tt

    visit-Grown :
        (m : Member) (continue : ScanContext → Trace → Result (ScanContext × Trace))
        (b : Option UnpackBudget) (ctx : ScanContext) (t : Trace)
        → ((c : ScanContext) (t' : Trace) → Yields (Grown c) (continue c t'))
        → Yields (Grown ctx) (visit w stages inner m continue b ctx t)
    unfolding visit
    visit-Grown m continue none ctx t k = tt
    visit-Grown m continue (some b) ctx t k = elim (Bool-cases (stops ctx)) [
      | inl e ↦ rw (e, visit) (Extends-refl ctx)
      | inr e ↦ elim (Bool-cases (w.expired ctx.path m)) [
        | inl late ↦
            rw (e, late, visit) (settle_run-Grown ctx _ t (mark_incomplete-Extends "archive" _ ctx))
        | inr early ↦ rw (e, early, visit) (after_extract-Grown m _ _ ctx t continue k)
      ]
    ]

    pub scan_members-Grown :
        (ms : List Member) (ctx : ScanContext) (t : Trace)
        → Yields (Grown ctx) (scan_members w stages inner ms ctx t)
    unfolding scan_members
    scan_members-Grown [] ctx t = Extends-refl ctx
    scan_members-Grown (m ∷ ms) ctx t =
        visit-Grown m (scan_members w stages inner ms) ctx.budget ctx t (scan_members-Grown ms)

  -- The members of an archive only add to what is known of it.
  pub expand-Grown :
      (fuel : ℕ) (ctx : ScanContext) (t : Trace) → Yields (Grown ctx) (expand w stages fuel ctx t)
  unfolding expand
  expand-Grown zero ctx t = tt
  expand-Grown (suc fuel) ctx t = elim (Bool-cases (is_flat ctx)) [
    | inl e ↦ rw (e, expand) (Extends-refl ctx)
    | inr e ↦
        rw (e, expand)
          (Yields-bind (Grown ctx) (Grown ctx)
            (scan_members w stages (expand w stages fuel) ctx.members ctx (mark "archive" t)) _
            (scan_members-Grown (expand w stages fuel) ctx.members ctx (mark "archive" t))
            (λ r p. p))
  ]

report_archive-Extends :
    (w : World) (stage : String) (b : UnpackBudget) (ctx : ScanContext)
    → Extends ctx (context_of (report_archive w stage b ctx))
unfolding report_archive
report_archive-Extends w stage b ctx =
    let r = inspect w.extension w.human (w.entries_of ctx.path) b ctx.depth true in
    Extends-trans (with_budget-Extends r.1 ctx) (
      and_then-Extends (with_budget r.1 ctx) (report w.summary stage r.0 (with_budget r.1 ctx)) _
        (report-Extends w.summary stage r.0 (with_budget r.1 ctx))
        (λ c. with_members-Extends r.0.members c))

analyse_opened-Extends :
    (w : World) (stage : String) (b : UnpackBudget) (ctx : ScanContext) (o : Outcome)
    → Extends ctx (context_of (analyse_opened w stage b ctx o))
unfolding analyse_opened
analyse_opened-Extends w stage b ctx ok = report_archive-Extends w stage b ctx
analyse_opened-Extends w stage b ctx (raised budget_exceeded) =
    Extends-trans (with_budget-Extends b ctx) (mark_incomplete-Extends stage _ (with_budget b ctx))
analyse_opened-Extends w stage b ctx (raised unreadable) =
    Extends-trans (with_budget-Extends b ctx) (mark_malformed-Extends stage _ (with_budget b ctx))
analyse_opened-Extends w stage b ctx (thrown e) = with_budget-Extends b ctx

-- The inventory of an archive only adds to the context, so the stage that takes it keeps to what
-- every stage does.
pub analyse-Extends :
    (w : World) (stage : String) (ctx : ScanContext)
    → Extends ctx (context_of (analyse w stage ctx))
unfolding analyse
analyse-Extends w stage ctx = analyse_opened-Extends w stage (budget_for w ctx) ctx _
