-- ===== src/Scan/Process/Laws.antt =====
-- What an answer of the pipeline says (`Pipeline.process` of
-- services/worker/worker_app/pipeline.py): when a file is called clean, and which files are rebuilt.
use vulnscan.Base.{
  ℕ, String, Bool, Option, none, some, List, [], ◌∷◌, ◌≡◌, ◌≢◌, refl, ◌⊎◌, inl, inr, arith,
  Bool-cases,
}
use vulnscan.Risk.Model.{
  Verdict, clean, malicious, is_malicious, ScanStatus, done, CdrProfile, TenantPolicy, FailMode,
  merge,
}
use vulnscan.Risk.Weights.{WeightTable}
use vulnscan.Risk.Verdicts.{verdict_of, apply_failure, verdict_on_failure}
use vulnscan.Risk.Verdicts.Laws.{WasCleared, verdict_of-clean_iff, verdict_of-merge}
use vulnscan.Scan.Model.{
  SanitizedArtifact, CachedStructural, ScanJob, ScanContext, Run, ran, threw, Stage, Trace,
  returned, escaped,
}
use vulnscan.Scan.Context.{add, facts}
use vulnscan.Scan.Stages.{run_stages}
use vulnscan.Scan.Stages.Laws.{Yields, Yields-returned, Yields-bind, anything}
use vulnscan.Scan.Members.{World, expand}
use vulnscan.Scan.Process.{
  ScanResult, CdrOutcome, rebuilt, refused, crashed, Services, apply_allowlist, should_sanitize,
  sanitize_with, start_of, judge, finish, hash_for, process_full, judge_cached, process_av_only,
  unless_blocked,
}

-- What holds of a result whose verdict is clean, and of one that has an artifact.
pub record IsJust (job : ScanJob) (r : ScanResult) : Type 0 where
  pub cleared : r.verdict ≡ clean → WasCleared r.facts job.policy
  pub ended : r.verdict ≡ clean → (r.status ≡ done) ⊎ (job.policy.fail_mode ≡ FailMode.fail_open)

apply_allowlist-clean :
    (check : Option (String → Option String → Verdict → Bool)) (sha : String)
    (tenant : Option String) (v : Verdict)
    → (apply_allowlist check sha tenant v).0 ≡ clean
    → v ≡ clean
unfolding apply_allowlist
apply_allowlist-clean none sha tenant v h = h
apply_allowlist-clean (some check) sha tenant v h = ground arith

pub judge-IsJust :
    (sv : Services) (job : ScanJob) (sha : String) (r : ScanContext × Trace)
    → IsJust job (judge sv job sha r)
unfolding judge
judge-IsJust sv job sha (ctx, t) = record {
  cleared = λ h.
      (verdict_of-clean_iff (facts ctx) job.policy).0
        (apply_allowlist-clean sv.allows sha job.tenant _ h);
  ended = λ h. inl refl;
}

apply_failure-clean :
    (v : Verdict) (policy : TenantPolicy)
    → apply_failure v policy ≡ clean
    → (v ≡ clean) × (policy.fail_mode ≡ FailMode.fail_open)
unfolding apply_failure verdict_on_failure
apply_failure-clean clean policy h = ground arith
apply_failure-clean v policy h = ground arith

module _ (profile : CdrProfile) (job : ScanJob) (ctx : ScanContext) (r : ScanResult)
    (j : IsJust job r) where
  -- What `sanitize_with` does with the outcome of `add`.
  refused-IsJust :
      (a : Run)
      → Yields (IsJust job) (elim a [
        | threw c ↦ escaped
        | ran c ↦ returned (record r {
          status = ScanStatus.failed;
          verdict = apply_failure r.verdict job.policy;
          findings = c.findings;
        })
      ])
  refused-IsJust (threw c) = tt
  refused-IsJust (ran c) = record {
    cleared = λ h. j.cleared (apply_failure-clean r.verdict job.policy h).0;
    ended = λ h. inr (apply_failure-clean r.verdict job.policy h).1;
  }

  sanitize_with-IsJust : (o : CdrOutcome) → Yields (IsJust job) (sanitize_with o profile job ctx r)
  unfolding sanitize_with
  sanitize_with-IsJust (rebuilt ref sha) = record { cleared = j.cleared; ended = j.ended }
  sanitize_with-IsJust (refused reason) =
      refused-IsJust (add "cdr" "CDR_FAILED" (some reason) none ctx)
  sanitize_with-IsJust crashed = tt

pub finish-IsJust :
    (sv : Services) (job : ScanJob) (ctx : ScanContext) (r : ScanResult)
    → IsJust job r
    → Yields (IsJust job) (finish sv job ctx r)
unfolding finish
finish-IsJust sv job ctx r j = elim (Bool-cases (should_sanitize job r.verdict)) [
  | inl e ↦ rw (e, finish) (sanitize_with-IsJust _ job ctx r j _)
  | inr e ↦ rw (e, finish) j
]

module _ (w : World) (sv : Services) (stages : List Stage) (fuel : ℕ) (weights : WeightTable)
    (job : ScanJob) (path : String) where
  pub process_full-from :
      (P : ScanResult → Type 0)
      → ((ctx : ScanContext) (t : Trace)
          → Yields P (finish sv job ctx (judge sv job (hash_for sv job path) (ctx, t))))
      → Yields P (process_full w sv stages fuel weights job path)
  unfolding process_full
  process_full-from P k =
      Yields-bind {A = ScanContext × Trace} (λ _. Unit {0}) P _ _ (anything _)
        (λ r _.
          Yields-bind (λ _. Unit {0}) P (expand w stages fuel r.0 r.1) _ (anything _)
            (λ q _. k q.0 q.1))

  -- A full pass that calls a file clean has found it supported and readable, its score below both
  -- thresholds and every essential stage done unless the tenant has chosen fail-open; and the pass
  -- came to its end, or the tenant has chosen fail-open.
  pub process_full-clean :
      (r : ScanResult)
      → process_full w sv stages fuel weights job path ≡ returned r
      → r.verdict ≡ clean
      → WasCleared r.facts job.policy
        × ((r.status ≡ done) ⊎ (job.policy.fail_mode ≡ FailMode.fail_open))
  process_full-clean r e h =
      let j =
        Yields-returned (IsJust job)
          (process_full-from (IsJust job)
            (λ ctx t. finish-IsJust sv job ctx _ (judge-IsJust sv job _ (ctx, t))))
          e in
      (j.cleared h, j.ended h)

unless_blocked-none :
    (v : Verdict) (a : Option SanitizedArtifact) → (unless_blocked v a ≡ none) ⊎ (v ≢ malicious)
unfolding is_malicious
unless_blocked-none v a = ground arith

clean_or_not : (v : Verdict) → (v ≢ clean) ⊎ (v ≡ clean)
clean_or_not clean = inr refl
clean_or_not v = inl (ground arith)

-- What holds of an answer from the cache.
abbrev IsCachedAnswer : ScanJob → CachedStructural → ScanResult → Type 0
IsCachedAnswer job cached r =
    ((r.verdict ≢ clean)
      ⊎ (((verdict_of cached.facts job.policy).0 ≡ clean) × WasCleared r.facts job.policy))
    × ((r.sanitized ≡ none) ⊎ (r.verdict ≢ malicious))

judge_cached-IsCachedAnswer :
    (sv : Services) (job : ScanJob) (cached : CachedStructural) (q : ScanContext × Trace)
    → IsCachedAnswer job cached (judge_cached sv job cached q)
unfolding judge_cached
judge_cached-IsCachedAnswer sv job cached (ctx, t) =
    let both = merge cached.facts (facts ctx) in
    let v = (verdict_of both job.policy).0 in
    let v' = (apply_allowlist sv.allows cached.sha256 job.tenant v).0 in
    let kept = unless_blocked-none v' cached.sanitized in
    elim (clean_or_not v') [
      | inl other ↦ (inl other, kept)
      | inr h ↦
          let c : v ≡ clean = apply_allowlist-clean sv.allows cached.sha256 job.tenant v h in
          (
            inr (
              (verdict_of-merge cached.facts (facts ctx) job.policy c).0,
              (verdict_of-clean_iff both job.policy).0 c,
            ),
            kept,
          )
    ]

-- An answer from the cache calls a file clean only if what was cached gives that verdict under the
-- policy of this tenant, and everything together is cleared; and it hands out no file that is blocked.
pub process_av_only-clean :
    (sv : Services) (clamav : Stage) (weights : WeightTable) (job : ScanJob)
    (cached : CachedStructural) (path : String) (r : ScanResult)
    → process_av_only sv clamav weights job cached path ≡ returned r
    → ((r.verdict ≢ clean)
        ⊎ (((verdict_of cached.facts job.policy).0 ≡ clean) × WasCleared r.facts job.policy))
      × ((r.sanitized ≡ none) ⊎ (r.verdict ≢ malicious))
unfolding process_av_only
process_av_only-clean sv clamav weights job cached path r e =
    let run =
      run_stages (clamav ∷ []) (start_of job path weights) (record { marks = []; timings = [] }) in
    Yields-returned (IsCachedAnswer job cached)
      (Yields-bind (λ _. Unit {0}) (IsCachedAnswer job cached) run
        (λ q. returned (judge_cached sv job cached q)) (anything run)
        (λ q _. judge_cached-IsCachedAnswer sv job cached q))
      e
