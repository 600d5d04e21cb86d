-- ===== src/Scan/Stages/Laws.antt =====
-- What running stages keeps (`Pipeline._run_stages` of services/worker/worker_app/pipeline.py): the
-- context only grows, and a stage that did not come to its end is on record.
use vulnscan.Base.{
  str_eq, String, Bool, true, false, none, some, List, [], ◌∷◌, ◌++◌, ◌≡◌, refl, ◌∙◌, subst, ◌⊎◌,
  inl, inr, arith, eq_refl, contains, union, any-append, Bool-cases,
}
use vulnscan.Scan.Model.{
  ScanContext, Run, ran, threw, Attempt, finished, timed_out, Stage, StageTiming, Trace, Result,
  returned, escaped, out_of_fuel, ◌>>=◌,
}
use vulnscan.Scan.Context.{add, mark_failed}
use vulnscan.Scan.Context.Growth.{
  Extends, Extends-refl, Extends-trans, add-Extends, mark_failed-Extends, context_of,
}
use vulnscan.Scan.Stages.{
  note_failure, end_stage, run_stage, run_stages, stops, note_timing, mark_risky,
}

abbrev pub context_after : Attempt → ScanContext
context_after (finished r) = context_of r
context_after (timed_out ctx) = ctx

-- What every stage keeps to: it adds to the context, however it ends.
abbrev pub IsStage : Stage → Type 0
IsStage s = (ctx : ScanContext) → Extends ctx (context_after (s.attempt ctx))

abbrev pub AllStages : List Stage → Type 0
AllStages [] = Unit
AllStages (s ∷ ss) = IsStage s × AllStages ss

-- The property holds of the value, if there is one.
abbrev pub Yields {ℓ κ} : {A : Type ℓ} → (A → Type κ) → Result A → Type κ
Yields P (returned a) = P a
Yields P escaped = Unit
Yields P out_of_fuel = Unit

pub Yields-returned {ℓ κ} :
    {A : Type ℓ} (P : A → Type κ) {r : Result A} {a : A} → Yields P r → r ≡ returned a → P a
Yields-returned P h e = subst (Yields P) e h

pub Yields-bind {ℓ κ μ ν} :
    {A : Type ℓ} {B : Type κ} (P : A → Type μ) (Q : B → Type ν) (r : Result A) (f : A → Result B)
    → Yields P r
    → ((a : A) → P a → Yields Q (f a))
    → Yields Q (r >>= f)
Yields-bind P Q (returned a) f h k = k a h
Yields-bind P Q escaped f h k = tt
Yields-bind P Q out_of_fuel f h k = tt

pub anything {ℓ} : {A : Type ℓ} (r : Result A) → Yields (λ _. Unit {0}) r
anything (returned a) = tt
anything escaped = tt
anything out_of_fuel = tt

pub Yields-map {ℓ κ μ} :
    {A : Type ℓ} (P : A → Type κ) (Q : A → Type μ) (r : Result A)
    → Yields P r
    → ((a : A) → P a → Q a)
    → Yields Q r
Yields-map P Q (returned a) h k = k a h
Yields-map P Q escaped h k = tt
Yields-map P Q out_of_fuel h k = tt

pub Yields-both {ℓ κ μ ν} :
    {A : Type ℓ} {P : A → Type κ} {Q : A → Type μ} {R : A → Type ν} (r : Result A)
    → Yields P r
    → Yields Q r
    → ((a : A) → P a → Q a → R a)
    → Yields R r
Yields-both (returned a) h k f = f a h k
Yields-both escaped h k f = tt
Yields-both out_of_fuel h k f = tt

-- A stage that ends in the given context and with the given success leaves a record.
record IsEnd (name : String) (ctx : ScanContext) (r : ScanContext × Bool) : Type 0 where
  pub extends : Extends ctx r.0
  pub recorded : (r.1 ≡ true) ⊎ (contains name r.0.failed_stages ≡ true)

contains-union_last : (s : String) (xs : List String) → contains s (union xs (s ∷ [])) ≡ true
contains-union_last s xs = any-append (λ x. str_eq x s) xs _ ∙ ground (arith, eq_refl s)

contains-mark_failed :
    (name : String) (ctx : ScanContext) → contains name (mark_failed name ctx).failed_stages ≡ true
unfolding mark_failed
contains-mark_failed name ctx = contains-union_last name ctx.failed_stages

-- What `note_failure` does with the outcome of `add`.
abbrev after_add : Run → Result (ScanContext × Bool)
after_add (ran c) = returned (c, false)
after_add (threw c) = escaped

after_add-IsEnd :
    (name : String) (ctx : ScanContext) (r : Run)
    → Extends (mark_failed name ctx) (context_of r)
    → Yields (IsEnd name ctx) (after_add r)
after_add-IsEnd name ctx (ran c) p = record {
  extends = Extends-trans (mark_failed-Extends name ctx) p;
  recorded = inr (p.failed name (contains-mark_failed name ctx));
}
after_add-IsEnd name ctx (threw c) p = tt

note_failure-IsEnd :
    (name code detail : String) (ctx : ScanContext)
    → Yields (IsEnd name ctx) (note_failure name code detail ctx)
unfolding note_failure
note_failure-IsEnd name code detail ctx =
    after_add-IsEnd name ctx (add name code (some detail) none (mark_failed name ctx))
      (add-Extends name code (some detail) none (mark_failed name ctx))

IsEnd-from :
    {a b : ScanContext} (name : String) (r : Result (ScanContext × Bool))
    → Extends a b
    → Yields (IsEnd name b) r
    → Yields (IsEnd name a) r
IsEnd-from name r p h =
    Yields-map _ _ r h
      (λ e q. record { extends = Extends-trans p q.extends; recorded = q.recorded })

end_stage-IsEnd :
    (name : String) (ctx : ScanContext) (a : Attempt)
    → Extends ctx (context_after a)
    → Yields (IsEnd name ctx) (end_stage name a)
unfolding end_stage
end_stage-IsEnd name ctx (finished (ran c)) p = record { extends = p; recorded = inl refl }
end_stage-IsEnd name ctx (finished (threw c)) p =
    IsEnd-from name _ p (note_failure-IsEnd name _ _ c)
end_stage-IsEnd name ctx (timed_out c) p = IsEnd-from name _ p (note_failure-IsEnd name _ _ c)

run_stage-IsEnd :
    (s : Stage) (ctx : ScanContext) → IsStage s → Yields (IsEnd s.name ctx) (run_stage s ctx)
unfolding run_stage
run_stage-IsEnd s ctx h = end_stage-IsEnd s.name ctx (s.attempt ctx) (h ctx)

-- Each stage in the timings that did not come to its end is among the failed ones.
abbrev pub IsRecorded : List StageTiming → List String → Type 0
IsRecorded [] failed = Unit
IsRecorded (x ∷ xs) failed =
    ((x.ok ≡ true) ⊎ (contains x.stage failed ≡ true)) × IsRecorded xs failed

IsRecorded-later :
    {a b : ScanContext} (xs : List StageTiming)
    → Extends a b
    → IsRecorded xs a.failed_stages
    → IsRecorded xs b.failed_stages
IsRecorded-later [] p h = tt
IsRecorded-later (x ∷ xs) p (inl e, h) = (inl e, IsRecorded-later xs p h)
IsRecorded-later (x ∷ xs) p (inr e, h) = (inr (p.failed x.stage e), IsRecorded-later xs p h)

IsRecorded-append :
    (xs : List StageTiming) (x : StageTiming) (failed : List String)
    → IsRecorded xs failed
    → (x.ok ≡ true) ⊎ (contains x.stage failed ≡ true)
    → IsRecorded (xs ++ x ∷ []) failed
IsRecorded-append [] x failed h k = (k, tt)
IsRecorded-append (y ∷ xs) x failed h k = (h.0, IsRecorded-append xs x failed h.1 k)

abbrev Grows : ScanContext → ScanContext × Trace → Type 0
Grows ctx r = Extends ctx r.0

run_stages-Grows :
    (ss : List Stage) (ctx : ScanContext) (t : Trace)
    → AllStages ss
    → Yields (Grows ctx) (run_stages ss ctx t)
unfolding run_stages
run_stages-Grows [] ctx t a = Extends-refl ctx
run_stages-Grows (s ∷ ss) ctx t a =
    Yields-bind (IsEnd s.name ctx) (Grows ctx) (run_stage s ctx) _ (run_stage-IsEnd s ctx a.0)
      (λ r p.
        let t' = note_timing s.name r.1 (mark_risky s.name t) in
        let rest : Yields (Grows ctx) (run_stages ss r.0 t') =
          Yields-map (Grows r.0) (Grows ctx) (run_stages ss r.0 t') (run_stages-Grows ss r.0 t' a.1)
            (λ q k. Extends-trans p.extends k) in
        elim (Bool-cases (stops r.0)) [ inl e ↦ rw e p.extends | inr e ↦ rw e rest ])

-- What a run of stages keeps.
pub record Keeps (ctx : ScanContext) (r : ScanContext × Trace) : Type 0 where
  pub extends : Extends ctx r.0
  pub recorded : IsRecorded r.1.timings r.0.failed_stages

timings-mark_risky : (name : String) (t : Trace) → (mark_risky name t).timings ≡ t.timings
timings-mark_risky name t = ground arith

pub run_stages-Keeps :
    (ss : List Stage) (ctx : ScanContext) (t : Trace)
    → AllStages ss
    → IsRecorded t.timings ctx.failed_stages
    → Yields (Keeps ctx) (run_stages ss ctx t)
unfolding run_stages
run_stages-Keeps [] ctx t a h = record { extends = Extends-refl ctx; recorded = h }
run_stages-Keeps (s ∷ ss) ctx t a h =
    Yields-bind (IsEnd s.name ctx) (Keeps ctx) (run_stage s ctx) _ (run_stage-IsEnd s ctx a.0)
      (λ r p.
        let t' = note_timing s.name r.1 (mark_risky s.name t) in
        let known : IsRecorded t'.timings r.0.failed_stages =
          IsRecorded-append (mark_risky s.name t).timings _ r.0.failed_stages
            (rw (timings-mark_risky s.name t) (IsRecorded-later t.timings p.extends h))
            p.recorded in
        let rest : Yields (Keeps ctx) (run_stages ss r.0 t') =
          Yields-map (Keeps r.0) (Keeps ctx) (run_stages ss r.0 t')
            (run_stages-Keeps ss r.0 t' a.1 known)
            (λ q k. record {
              extends = Extends-trans p.extends k.extends;
              recorded = k.recorded;
            }) in
        elim (Bool-cases (stops r.0)) [
          | inl e ↦ rw e (record { extends = p.extends; recorded = known })
          | inr e ↦ rw e rest
        ])

pub run_stage-Extends :
    (s : Stage) (ctx : ScanContext) → IsStage s → Yields (λ r. Extends ctx r.0) (run_stage s ctx)
run_stage-Extends s ctx h =
    Yields-map (IsEnd s.name ctx) (λ r. Extends ctx r.0) (run_stage s ctx) (run_stage-IsEnd s ctx h)
      (λ r k. k.extends)

-- The stages only add to what is known of a file.
pub run_stages-Extends :
    (ss : List Stage) (ctx after : ScanContext) (t t' : Trace)
    → AllStages ss
    → run_stages ss ctx t ≡ returned (after, t')
    → Extends ctx after
run_stages-Extends ss ctx after t t' a e =
    Yields-returned (Grows ctx) (run_stages-Grows ss ctx t a) e
