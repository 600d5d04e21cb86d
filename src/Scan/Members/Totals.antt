-- ===== src/Scan/Members/Totals.antt =====
-- `Pipeline._expand` (services/worker/worker_app/pipeline.py) comes to its end: the depth bounds the
-- recursion, and six rounds of fuel are enough for every archive.
use mathlib.Core.Bool.{true≢false}
use vulnscan.Base.{
  ℕ, zero, suc, ◌+◌, ◌≤◌, String, Bool, true, false, ◌||◌, Option, none, some, List, [], ◌∷◌, ◌≡◌,
  ◌≢◌, refl, sym, ◌∙◌, ap, subst, inl, inr, arith, Bool-cases, Option-cases,
}
use vulnscan.Archive.Model.{ZipInfo, UnpackBudget, Member, max_archive_depth}
use vulnscan.Archive.Extract.{
  Outcome, ok, raised, thrown, budget_exceeded, unreadable, is_thrown, extract-caught,
}
use vulnscan.Risk.Weights.{Rule, rule_for}
use vulnscan.Scan.Model.{ScanContext, Run, Stage, Trace, Result, returned, ◌>>=◌}
use vulnscan.Scan.Context.{
  append_finding, valid_score, add, key_or, has_code, adopt, mark_incomplete, mark_malformed,
}
use vulnscan.Scan.Context.Growth.{Extends, Extends-trans, context_of, mark_malformed-Extends}
use vulnscan.Scan.Stages.{stops, mark}
use vulnscan.Scan.Stages.Laws.{AllStages, run_stages-Extends}
use vulnscan.Scan.Stages.Totals.{
  IsAllowed, IsAllowed-later, IsSound, IsSound-later, Ends, IsRan, add-IsRan, run_stages-Ends,
}
use vulnscan.Scan.Members.{
  IsRead, extraction_of, World, with_budget, take_back, settle_run, child_of, check_member,
  after_extract, visit, scan_members, is_flat, is_none, expand, member_text, failure_text,
}
use vulnscan.Scan.Members.Laws.{adopted-Extends, with_budget-Extends}

-- The codes that the pipeline reports itself weigh what a finding can weigh.
pub record IsReady (ctx : ScanContext) : Type 0 where
  pub stages : IsSound ctx
  pub incomplete : IsAllowed "ARCHIVE_INCOMPLETE" ctx
  pub malformed : IsAllowed "ARCHIVE_MALFORMED" ctx

pub IsReady-later : {a b : ScanContext} → Extends a b → IsReady a → IsReady b
IsReady-later p h = record {
  stages = IsSound-later p h.stages;
  incomplete = IsAllowed-later "ARCHIVE_INCOMPLETE" p h.incomplete;
  malformed = IsAllowed-later "ARCHIVE_MALFORMED" p h.malformed;
}

budget-append_finding :
    (stage code : String) (detail : Option String) (rule : Rule) (ctx : ScanContext)
    → (context_of (append_finding stage code detail rule ctx)).budget ≡ ctx.budget
unfolding append_finding
budget-append_finding stage code detail rule ctx = elim (Option-cases (valid_score rule.score)) [
  | inl e ↦ rw (e, append_finding, context_of) refl
  | inr (n, e) ↦ rw (e, append_finding, context_of) refl
]

budget-add :
    (stage code : String) (detail key : Option String) (ctx : ScanContext)
    → (context_of (add stage code detail key ctx)).budget ≡ ctx.budget
unfolding add
budget-add stage code detail key ctx = elim (Bool-cases (has_code code ctx)) [
  | inl e ↦ rw (e, add, context_of) refl
  | inr e ↦
      rw (e, add)
        (budget-append_finding stage code detail (rule_for ctx.weights (key_or key code)).0
          (record ctx { weights = (rule_for ctx.weights (key_or key code)).1 }))
]

malformed-budget :
    (stage reason : String) (b : UnpackBudget) (ctx : ScanContext)
    → (context_of (mark_malformed stage reason (with_budget b ctx))).budget ≡ some b
unfolding mark_malformed
malformed-budget stage reason b ctx =
    budget-add stage "ARCHIVE_MALFORMED" (some reason) none
      (record (with_budget b ctx) { supported = false })

incomplete-IsRan :
    (stage reason : String) (ctx : ScanContext)
    → IsReady ctx
    → IsRan (mark_incomplete stage reason ctx)
unfolding mark_incomplete
incomplete-IsRan stage reason ctx h =
    add-IsRan stage "ARCHIVE_INCOMPLETE" (some reason) (record ctx { supported = false })
      h.incomplete

malformed-IsRan :
    (stage reason : String) (ctx : ScanContext)
    → IsReady ctx
    → IsRan (mark_malformed stage reason ctx)
unfolding mark_malformed
malformed-IsRan stage reason ctx h =
    add-IsRan stage "ARCHIVE_MALFORMED" (some reason) (record ctx { supported = false }) h.malformed

settle_run-Ends : (r : Run) (t : Trace) → IsRan r → Ends (settle_run r t)
settle_run-Ends r t (c, e) = rw e (_, refl)

pub bind-Ends :
    {A B : Type 0} (r : Result A) (f : A → Result B)
    → Ends r
    → ((a : A) → r ≡ returned a → Ends (f a))
    → Ends (r >>= f)
bind-Ends r f (a, e) k = subst (λ q. Ends (q >>= f)) (sym e) (k a e)

adopt-budget :
    (child : ScanContext) (label : String) (b : UnpackBudget) (ctx : ScanContext)
    → (c : UnpackBudget) × ((adopt child label (take_back b child ctx)).budget ≡ some c)
unfolding adopt
adopt-budget child label b ctx = (_, refl)

none≢some : {b : UnpackBudget} → none ≢ some b
none≢some e = cc

budget_there :
    (o : Option UnpackBudget) (x y : Bool)
    → (x || is_none o || y) ≡ false
    → (b : UnpackBudget) × (o ≡ some b)
budget_there none true y e = absurd (true≢false e)
budget_there none false y e = absurd (true≢false e)
budget_there (some b) x y e = (b, refl)

open_budget : (ctx : ScanContext) → is_flat ctx ≡ false → (b : UnpackBudget) × (ctx.budget ≡ some b)
open_budget ctx e = budget_there ctx.budget _ _ e

open_depth : (ctx : ScanContext) → is_flat ctx ≡ false → ctx.depth ≤ max_archive_depth
open_depth ctx e = ground arith

-- A context that the loop can go on from: at the given depth, with a budget.
record IsOpen (n : ℕ) (ctx : ScanContext) : Type 0 where
  pub ready : IsReady ctx
  pub depth : ctx.depth ≡ n
  pub budget : UnpackBudget
  pub funded : ctx.budget ≡ some budget

module _ (w : World) (stages : List Stage) (lawful : AllStages stages)
    (read : (path : String) (info : ZipInfo) → IsRead (w.read path info)) where
  module _ (n : ℕ) (inner : ScanContext → Trace → Result (ScanContext × Trace))
      (ends : (c : ScanContext) (t : Trace) → IsReady c → c.depth ≡ suc n → Ends (inner c t)) where
    extraction-caught :
        (m : Member) (b : UnpackBudget) (ctx : ScanContext)
        → is_thrown (extraction_of w stages inner m b ctx).outcome ≡ false
    extraction-caught m b ctx = extract-caught _ _ _ _ m.info b (read ctx.path m.info)

    check_member-Ends :
        (m : Member) (b : UnpackBudget) (ctx : ScanContext) (t : Trace)
        → IsReady ctx
        → ctx.depth ≡ n
        → Ends (check_member w stages inner m b ctx t)
    unfolding check_member
    check_member-Ends m b ctx t h d =
        let child = child_of w m b ctx in
        let ready : IsReady child = record {
          stages = h.stages;
          incomplete = h.incomplete;
          malformed = h.malformed;
        } in
        bind-Ends _ _ (run_stages-Ends stages child (record t { timings = [] }) lawful ready.stages)
          (λ r e.
            let p : Extends child r.0 = run_stages-Extends stages child r.0 _ r.1 lawful e in
            bind-Ends (inner r.0 r.1) _ (ends r.0 r.1 (IsReady-later p ready) (p.depth ∙ ap suc d))
              (λ q _. (_, refl)))

    module _ (m : Member) (continue : ScanContext → Trace → Result (ScanContext × Trace))
        (goes_on : (c : ScanContext) (t : Trace) → IsOpen n c → Ends (continue c t)) where
      after_extract-Ends :
          (b : UnpackBudget) (o : Outcome) (ctx : ScanContext) (t : Trace)
          → IsReady ctx
          → ctx.depth ≡ n
          → is_thrown o ≡ false
          → Ends (after_extract w stages inner m b o ctx t continue)
      unfolding after_extract
      after_extract-Ends b ok ctx t h d safe =
          bind-Ends (check_member w stages inner m b ctx t) _ (check_member-Ends m b ctx t h d)
            (λ r _.
              let p = adopted-Extends w stages inner m b r.0 ctx in
              let (c, e) = adopt-budget r.0 (member_text w m) b ctx in
              goes_on _ r.1
                (record { ready = IsReady-later p h; depth = p.depth ∙ d; budget = c; funded = e }))
      after_extract-Ends b (raised budget_exceeded) ctx t h d safe = settle_run-Ends _ t (
          incomplete-IsRan "archive" _ (with_budget b ctx)
            (IsReady-later (with_budget-Extends b ctx) h))
      after_extract-Ends b (raised unreadable) ctx t h d safe =
          let p = with_budget-Extends b ctx in
          let reason = failure_text w m (w.read ctx.path m.info).failure in
          let bad = mark_malformed "archive" reason (with_budget b ctx) in
          let (c, e) = malformed-IsRan "archive" reason (with_budget b ctx) (IsReady-later p h) in
          let q : Extends ctx c = Extends-trans p (
            subst (λ r. Extends (with_budget b ctx) (context_of r)) e
              (mark_malformed-Extends "archive" reason (with_budget b ctx))) in
          let funded : c.budget ≡ some b =
            subst (λ r. (context_of r).budget ≡ some b) e
              (malformed-budget "archive" reason b ctx) in
          subst (λ r. Ends (settle_run r t >>= (λ (c', t'). continue c' t'))) (sym e)
            (goes_on c t (record {
              ready = IsReady-later q h;
              depth = q.depth ∙ d;
              budget = b;
              funded = funded;
            }))
      after_extract-Ends b (thrown e) ctx t h d safe = absurd (true≢false safe)

      visit-Ends :
          (o : Option UnpackBudget) (ctx : ScanContext) (t : Trace)
          → ctx.budget ≡ o
          → IsOpen n ctx
          → Ends (visit w stages inner m continue o ctx t)
      unfolding visit
      visit-Ends none ctx t e h = absurd (none≢some (sym e ∙ h.funded))
      visit-Ends (some b) ctx t e h = elim (Bool-cases (stops ctx)) [
        | inl stop ↦ rw (stop, visit) (_, refl)
        | inr on ↦ elim (Bool-cases (w.expired ctx.path m)) [
          | inl late ↦
              rw (on, late, visit) (settle_run-Ends _ t (incomplete-IsRan "archive" _ ctx h.ready))
          | inr early ↦
              rw (on, early, visit)
                (after_extract-Ends _ _ ctx t h.ready h.depth (extraction-caught m b ctx))
        ]
      ]

    scan_members-Ends :
        (ms : List Member) (ctx : ScanContext) (t : Trace)
        → IsOpen n ctx
        → Ends (scan_members w stages inner ms ctx t)
    unfolding scan_members
    scan_members-Ends [] ctx t h = (_, refl)
    scan_members-Ends (m ∷ ms) ctx t h =
        visit-Ends m (scan_members w stages inner ms) (scan_members-Ends ms) ctx.budget ctx t refl h

  -- Expanding an archive comes to its end with six rounds of fuel, and from a member at a given depth
  -- with as many fewer: no depth of nesting and no stage that fails makes the pipeline go on for ever or
  -- leave by an exception, if the stages only add to the context, the codes that the pipeline reports
  -- itself weigh what a finding can weigh, and every member that cannot be read or written out ends in
  -- an exception that `extract` turns into an `ArchiveError`.
  pub expand-Ends :
      (fuel : ℕ) (ctx : ScanContext) (t : Trace)
      → IsReady ctx
      → 6 ≤ fuel + ctx.depth
      → 1 ≤ fuel
      → Ends (expand w stages fuel ctx t)
  unfolding expand
  expand-Ends zero ctx t h d z = absurd (omega arith)
  expand-Ends (suc fuel) ctx t h d z = elim (Bool-cases (is_flat ctx)) [
    | inl e ↦ rw (e, expand) (_, refl)
    | inr e ↦
        rw (e, expand)
          (let (b, f) = open_budget ctx e in
            bind-Ends _ _
              (scan_members-Ends ctx.depth (expand w stages fuel)
                (λ c t' k same.
                  expand-Ends fuel c t' k (omega (arith, same, d))
                    (omega (arith, same, d, open_depth ctx e)))
                ctx.members ctx (mark "archive" t)
                (record { ready = h; depth = refl; budget = b; funded = f }))
              (λ r _. (_, refl)))
  ]
