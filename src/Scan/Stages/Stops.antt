-- ===== src/Scan/Stages/Stops.antt =====
-- The early exit of `Pipeline._run_stages` (services/worker/worker_app/pipeline.py) against a run that
-- goes through every stage, and what a stage that failed means for the verdict.
use vulnscan.Base.{
  ◌≤◌, String, Bool, true, not, ◌&&◌, List, [], ◌∷◌, ◌≡◌, ◌≢◌, ◌↔◌, refl, sym, ◌∙◌, ap, subst, ◌⊎◌,
  inl, inr, arith, contains, any, intersects, intersects_of_contains, Bool-cases,
}
use vulnscan.Risk.Model.{TenantPolicy, clean, malicious, FailMode}
use vulnscan.Risk.Score.{score_of}
use vulnscan.Risk.Verdicts.{verdict_of, should_stop_early, coverage_incomplete, essential_stages}
use vulnscan.Risk.Verdicts.Laws.{verdict_of-clean_iff}
use vulnscan.Scan.Model.{
  ScanContext, Stage, StageTiming, Trace, Result, returned, escaped, out_of_fuel, ◌>>=◌,
}
use vulnscan.Scan.Context.{facts}
use vulnscan.Scan.Context.Growth.{Extends, Extends-refl, Extends-trans, Extends-score}
use vulnscan.Scan.Stages.{run_stage, run_stages, stops, note_timing, mark_risky}
use vulnscan.Scan.Stages.Laws.{
  AllStages, Yields, Yields-returned, Yields-bind, Yields-map, IsRecorded, Keeps, run_stages-Keeps,
  run_stage-Extends,
}

-- The run without the early exit.
unfoldable pub run_all : List Stage → ScanContext → Trace → Result (ScanContext × Trace)
run_all [] ctx t = returned (ctx, t)
run_all (s ∷ ss) ctx t = do
  (c, ok) ← run_stage s ctx
  run_all ss c (note_timing s.name ok (mark_risky s.name t))

run_all-Extends :
    (ss : List Stage) (ctx : ScanContext) (t : Trace)
    → AllStages ss
    → Yields (λ r. Extends ctx r.0) (run_all ss ctx t)
unfolding run_all
run_all-Extends [] ctx t a = Extends-refl ctx
run_all-Extends (s ∷ ss) ctx t a =
    Yields-bind (λ r. Extends ctx r.0) (λ r. Extends ctx r.0) (run_stage s ctx) _
      (run_stage-Extends s ctx a.0)
      (λ r p.
        Yields-map _ _ (run_all ss r.0 _) (run_all-Extends ss r.0 _ a.1) (λ q k. Extends-trans p k))

-- Both runs have the same result, or both have reached the block threshold.
abbrev Agree : TenantPolicy → Result (ScanContext × Trace) → Result (ScanContext × Trace) → Type 0
Agree policy r q =
    (r ≡ q)
    ⊎ (Yields (λ a. policy.block_threshold ≤ score_of a.0.findings) r
        × Yields (λ a. policy.block_threshold ≤ score_of a.0.findings) q)

stops-reached :
    (ctx : ScanContext) → stops ctx ≡ true → ctx.job.policy.block_threshold ≤ score_of ctx.findings
unfolding stops should_stop_early facts
stops-reached ctx h = ground arith

Agree-bind :
    (policy : TenantPolicy) (r : Result (ScanContext × Bool)) (P : ScanContext × Bool → Type 0)
    (f g : ScanContext × Bool → Result (ScanContext × Trace))
    → Yields P r
    → ((a : ScanContext × Bool) → P a → Agree policy (f a) (g a))
    → Agree policy (r >>= f) (r >>= g)
Agree-bind policy (returned a) P f g h k = k a h
Agree-bind policy escaped P f g h k = inl refl
Agree-bind policy out_of_fuel P f g h k = inl refl

run_stages-Agree :
    (ss : List Stage) (ctx : ScanContext) (t : Trace) (policy : TenantPolicy)
    → ctx.job.policy ≡ policy
    → AllStages ss
    → Agree policy (run_stages ss ctx t) (run_all ss ctx t)
unfolding run_stages run_all
run_stages-Agree [] ctx t policy e a = inl refl
run_stages-Agree (s ∷ ss) ctx t policy e a =
    Agree-bind policy (run_stage s ctx) (λ r. Extends ctx r.0) _ _ (run_stage-Extends s ctx a.0)
      (λ r p.
        let t' = note_timing s.name r.1 (mark_risky s.name t) in
        let same : r.0.job.policy ≡ policy = ap (λ j. j.policy) p.job ∙ e in
        elim (Bool-cases (stops r.0)) [
          | inl stop ↦
              let reached : policy.block_threshold ≤ score_of r.0.findings =
                subst (λ q. q.block_threshold ≤ score_of r.0.findings) same
                  (stops-reached r.0 stop) in
              rw stop (
                inr (
                  reached,
                  Yields-map _ _ (run_all ss r.0 t') (run_all-Extends ss r.0 t' a.1)
                      (λ q k. omega (arith, Extends-score k, reached)),
                ))
          | inr on ↦ rw on (run_stages-Agree ss r.0 t' policy same a.1)
        ])

reached-malicious :
    (ctx : ScanContext) (policy : TenantPolicy)
    → policy.block_threshold ≤ score_of ctx.findings
    → (verdict_of (facts ctx) policy).0 ≡ malicious
unfolding verdict_of facts
reached-malicious ctx policy h = ground arith

returned-injective {ℓ} : {A : Type ℓ} (a b : A) → returned a ≡ returned b → a ≡ b
returned-injective a b e = ap (λ r. elim r [ returned x ↦ x | escaped ↦ a | out_of_fuel ↦ a ]) e

-- The early exit costs no verdict: over stages that only add to the context, the run that stops as
-- soon as the score blocks the file and the run through all stages find the same files malicious.
pub run_stages-malicious_iff :
    (ss : List Stage) (ctx : ScanContext) (t : Trace) (early full : ScanContext × Trace)
    → AllStages ss
    → run_stages ss ctx t ≡ returned early
    → run_all ss ctx t ≡ returned full
    → ((verdict_of (facts early.0) ctx.job.policy).0 ≡ malicious)
      ↔ ((verdict_of (facts full.0) ctx.job.policy).0 ≡ malicious)
run_stages-malicious_iff ss ctx t early full a e f =
    elim (run_stages-Agree ss ctx t ctx.job.policy refl a) [
      | inl same ↦
          let h : early ≡ full = returned-injective early full (sym e ∙ same ∙ f) in
          rw h (λ x. x, λ x. x)
      | inr (r, q) ↦ (
        λ _. reached-malicious full.0 ctx.job.policy (Yields-returned _ q f),
        λ _. reached-malicious early.0 ctx.job.policy (Yields-returned _ r e),
      )
    ]

-- Whether an essential stage is in the timings as one that did not come to its end.
abbrev pub lost_essential : List StageTiming → Bool
lost_essential = any (λ x. not x.ok && contains x.stage essential_stages)

IsRecorded-incomplete :
    (xs : List StageTiming) (failed : List String)
    → IsRecorded xs failed
    → lost_essential xs ≡ true
    → intersects failed essential_stages ≡ true
IsRecorded-incomplete [] failed h k = cc
IsRecorded-incomplete (x ∷ xs) failed h k = ground (
  arith,
  IsRecorded-incomplete xs failed h.1,
  intersects_of_contains x.stage failed essential_stages,
  h.0,
)

incomplete-not_clean :
    (ctx : ScanContext) (policy : TenantPolicy)
    → intersects ctx.failed_stages essential_stages ≡ true
    → policy.fail_mode ≢ FailMode.fail_open
    → (verdict_of (facts ctx) policy).0 ≢ clean
unfolding coverage_incomplete facts
incomplete-not_clean ctx policy h m v =
    ground (arith, (verdict_of-clean_iff (facts ctx) policy).0 v)

-- Over stages that only add to the context, a file is not called clean when an essential stage (the
-- type, the structure or the antivirus) fell over or ran out of time on it, unless the tenant has
-- chosen fail-open.
pub run_stages-not_clean :
    (ss : List Stage) (ctx after : ScanContext) (t : Trace) (policy : TenantPolicy)
    → AllStages ss
    → run_stages ss ctx (record { marks = []; timings = [] }) ≡ returned (after, t)
    → lost_essential t.timings ≡ true
    → policy.fail_mode ≢ FailMode.fail_open
    → (verdict_of (facts after) policy).0 ≢ clean
run_stages-not_clean ss ctx after t policy a e lost m =
    let k = Yields-returned (Keeps ctx) (run_stages-Keeps ss ctx _ a tt) e in
    incomplete-not_clean after policy
      (IsRecorded-incomplete t.timings after.failed_stages k.recorded lost) m
