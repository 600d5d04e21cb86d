-- ===== src/Scan/Stages/Totals.antt =====
-- When `Pipeline._run_stages` (services/worker/worker_app/pipeline.py) comes to its end.
use vulnscan.Base.{
  String, Option, none, some, List, [], ◌∷◌, ◌≡◌, ◌≢◌, refl, sym, ◌∙◌, ap, inl, inr, get_or, lookup,
  get_or-lookup, Bool-cases, Option-cases,
}
use vulnscan.Risk.Weights.{Rule, WeightTable, rule_for, fallback}
use vulnscan.Scan.Model.{
  ScanContext, Run, ran, threw, Attempt, finished, timed_out, Stage, Trace, Result, returned,
}
use vulnscan.Scan.Context.{valid_score, append_finding, add, mark_failed, has_code}
use vulnscan.Scan.Context.Growth.{Extends}
use vulnscan.Scan.Stages.{
  note_failure, end_stage, run_stage, run_stages, stops, note_timing, mark_risky,
}
use vulnscan.Scan.Stages.Laws.{
  IsStage, AllStages, context_after, Yields-returned, run_stage-Extends,
}

-- The weight of a code is one that a finding can have.
abbrev pub IsAllowed : String → ScanContext → Type 0
IsAllowed code ctx = valid_score (get_or code ctx.weights.rules fallback).score ≢ none

-- The value is there.
abbrev pub Ends {ℓ} : {A : Type ℓ} → Result A → Type ℓ
Ends {A} r = (a : A) × (r ≡ returned a)

pub IsAllowed-later :
    {a b : ScanContext} (code : String) → Extends a b → IsAllowed code a → IsAllowed code b
IsAllowed-later {a} {b} code p h e =
    h (ap (λ d. valid_score (get_or code d fallback).score) (sym p.rules) ∙ e)

abbrev pub IsRan : Run → Type 0
IsRan r = (c : ScanContext) × (r ≡ ran c)

rule_for-get_or :
    (t : WeightTable) (code : String) → (rule_for t code).0 ≡ get_or code t.rules fallback
unfolding rule_for get_or
rule_for-get_or t code = elim (Option-cases (lookup code t.rules)) [
  | inl e ↦ rw (get_or-lookup code t.rules fallback, e, rule_for) refl
  | inr (r, e) ↦ rw (get_or-lookup code t.rules fallback, e, rule_for) refl
]

append_finding-IsRan :
    (stage code : String) (detail : Option String) (rule : Rule) (ctx : ScanContext)
    → valid_score rule.score ≢ none
    → IsRan (append_finding stage code detail rule ctx)
unfolding append_finding
append_finding-IsRan stage code detail rule ctx h = elim (Option-cases (valid_score rule.score)) [
  | inl e ↦ absurd (h e)
  | inr (n, e) ↦ rw (e, append_finding) (_, refl)
]

pub add-IsRan :
    (stage code : String) (detail : Option String) (ctx : ScanContext)
    → IsAllowed code ctx
    → IsRan (add stage code detail none ctx)
unfolding add
add-IsRan stage code detail ctx h = elim (Bool-cases (has_code code ctx)) [
  | inl e ↦ rw e (_, refl)
  | inr e ↦ rw e (
      append_finding-IsRan stage code detail (rule_for ctx.weights code).0
        (record ctx { weights = (rule_for ctx.weights code).1 })
        (λ v. h (ap (λ r. valid_score r.score) (sym (rule_for-get_or ctx.weights code)) ∙ v)))
]

note_failure-Ends :
    (name code detail : String) (ctx : ScanContext)
    → IsAllowed code ctx
    → Ends (note_failure name code detail ctx)
unfolding note_failure mark_failed
note_failure-Ends name code detail ctx h =
    let (c, e) = add-IsRan name code (some detail) (mark_failed name ctx) h in
    rw (e, note_failure) (_, refl)

-- The two codes that the pipeline itself reports for a stage.
abbrev pub IsSound : ScanContext → Type 0
IsSound ctx = IsAllowed "STAGE_FAILED" ctx × IsAllowed "STAGE_TIMEOUT" ctx

pub IsSound-later : {a b : ScanContext} → Extends a b → IsSound a → IsSound b
IsSound-later p h = (IsAllowed-later "STAGE_FAILED" p h.0, IsAllowed-later "STAGE_TIMEOUT" p h.1)

end_stage-Ends : (name : String) (a : Attempt) → IsSound (context_after a) → Ends (end_stage name a)
unfolding end_stage
end_stage-Ends name (finished (ran c)) h = (_, refl)
end_stage-Ends name (finished (threw c)) h = note_failure-Ends name "STAGE_FAILED" _ c h.0
end_stage-Ends name (timed_out c) h = note_failure-Ends name "STAGE_TIMEOUT" _ c h.1

run_stage-Ends : (s : Stage) (ctx : ScanContext) → IsStage s → IsSound ctx → Ends (run_stage s ctx)
unfolding run_stage
run_stage-Ends s ctx p h = end_stage-Ends s.name (s.attempt ctx) (IsSound-later (p ctx) h)

-- Whatever the stages do, throw or run out of time, the pipeline comes to the end of them, if the
-- weights of the two codes that it reports itself are ones that a finding can have.
pub run_stages-Ends :
    (ss : List Stage) (ctx : ScanContext) (t : Trace)
    → AllStages ss
    → IsSound ctx
    → Ends (run_stages ss ctx t)
unfolding run_stages
run_stages-Ends [] ctx t a h = (_, refl)
run_stages-Ends (s ∷ ss) ctx t a h =
    let (r, e) = run_stage-Ends s ctx a.0 h in
    let p : Extends ctx r.0 =
      Yields-returned (λ q. Extends ctx q.0) (run_stage-Extends s ctx a.0) e in
    let t' = note_timing s.name r.1 (mark_risky s.name t) in
    let rest = run_stages-Ends ss r.0 t' a.1 (IsSound-later p h) in
    elim (Bool-cases (stops r.0)) [ inl stop ↦ rw (e, stop) (_, refl) | inr on ↦ rw (e, on) rest ]
