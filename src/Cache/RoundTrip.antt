-- ===== src/Cache/RoundTrip.antt =====
-- A result that goes into the cache in two halves and comes out as one (`_store_cache` of
-- services/worker/worker_app/main.py, `assemble` of packages/vscommon/cache.py) keeps its verdict.
use mathlib.Core.List.{Perm, perm_middle}
use mathlib.Core.List.Perm
use vulnscan.Base.{
  String, Bool, false, not, ◌&&◌, ◌||◌, List, [], ◌∷◌, ◌++◌, keep, any, contains, intersects,
  intersects-union, str_eq, eq_iff, ◌≡◌, refl, ◌∙◌, ap, arith, Bool-cases, inl, inr, IsDistinct,
}
use vulnscan.Risk.Model.{Finding, ScanFacts, TenantPolicy, codes_of, merge}
use vulnscan.Risk.Score.{score_of}
use vulnscan.Risk.Score.Laws.{score_of-perm}
use vulnscan.Risk.Verdicts.{verdict_of, coverage_incomplete, essential_stages}
use vulnscan.Scan.Model.{ScanJob}
use vulnscan.Scan.Process.{ScanResult}
use vulnscan.Cache.{
  is_clamav, is_request_derived, structural_facts, av_facts, structural_of, av_of, assemble,
}

-- The two parts of a list are the list in another order.
partition_perm {ℓ} :
    {A : Type ℓ} (p : A → Bool) (xs : List A) → Perm (keep (λ x. not (p x)) xs ++ keep p xs) xs
partition_perm p [] = Perm.nil
partition_perm p (x ∷ xs) = elim (Bool-cases (p x)) [
  | inl e ↦ rw e (
      Perm.trans (perm_middle (keep (λ x. not (p x)) xs) (keep p xs))
        (Perm.cons x (partition_perm p xs)))
  | inr e ↦ rw e (Perm.cons x (partition_perm p xs))
]

any-partition {ℓ} :
    {A : Type ℓ} (p q : A → Bool) (xs : List A)
    → (any q (keep (λ x. not (p x)) xs) || any q (keep p xs)) ≡ any q xs
any-partition p q [] = refl
any-partition p q (x ∷ xs) = ground (arith, any-partition p q xs)

-- Some finding has a code of the list.
abbrev meets : List String → List Finding → Bool
meets codes = any (λ f. contains f.code codes)

keep_all :
    (codes : List String) (fs : List Finding)
    → meets codes fs ≡ false
    → keep (λ f. not (contains f.code codes)) fs ≡ fs
keep_all codes [] h = refl
keep_all codes (f ∷ fs) h = ground (arith, keep_all codes fs)

contains-codes-keep :
    (s : String) (p : Finding → Bool) (fs : List Finding)
    → contains s (codes_of fs) ≡ false
    → contains s (codes_of (keep p fs)) ≡ false
contains-codes-keep s p [] h = refl
contains-codes-keep s p (f ∷ fs) h = ground (arith, contains-codes-keep s p fs)

meets-cons :
    (s : String) (codes : List String) (p : Finding → Bool) (fs : List Finding)
    → contains s (codes_of fs) ≡ false
    → meets codes (keep p fs) ≡ false
    → meets (s ∷ codes) (keep p fs) ≡ false
meets-cons s codes p [] h k = refl
meets-cons s codes p (f ∷ fs) h k =
    ground (arith, meets-cons s codes p fs, eq_iff s f.code, eq_iff f.code s)

-- Findings with different codes: no code stands in both parts.
meets_parts :
    (p : Finding → Bool) (fs : List Finding)
    → IsDistinct (codes_of fs)
    → meets (codes_of (keep (λ f. not (p f)) fs)) (keep p fs) ≡ false
meets_parts p [] d = refl
meets_parts p (f ∷ fs) d = elim (Bool-cases (p f)) [
  | inl e ↦
      rw e
        (ground (arith, contains-codes-keep f.code (λ g. not (p g)) fs d.0, meets_parts p fs d.1))
  | inr e ↦
      rw e (meets-cons f.code (codes_of (keep (λ g. not (p g)) fs)) p fs d.0 (meets_parts p fs d.1))
]

abbrev structural_part : List Finding → List Finding
structural_part = keep (λ f. not (is_clamav f) && not (is_request_derived f))

-- Nothing that the client said: only the antivirus is left out.
structural_findings :
    (fs : List Finding)
    → any is_request_derived fs ≡ false
    → keep (λ f. not (is_clamav f) && not (is_request_derived f)) fs
      ≡ keep (λ f. not (is_clamav f)) fs
structural_findings [] h = refl
structural_findings (f ∷ fs) h = ground (arith, structural_findings fs)

-- The merge of the two parts is the two parts, one after the other.
merged_findings :
    (fs : List Finding)
    → IsDistinct (codes_of fs)
    → any is_request_derived fs ≡ false
    → (structural_part fs
        ++ keep (λ f. not (contains f.code (codes_of (structural_part fs)))) (keep is_clamav fs))
      ≡ keep (λ f. not (is_clamav f)) fs ++ keep is_clamav fs
merged_findings fs d h =
    rw
      (
        structural_findings fs h,
        keep_all (codes_of (keep (λ f. not (is_clamav f)) fs)) (keep is_clamav fs)
            (meets_parts is_clamav fs d),
      )
      refl

-- What the verdict reads of the facts that come back.
module _ (facts : ScanFacts) (d : IsDistinct (codes_of facts.findings))
    (h : any is_request_derived facts.findings ≡ false) where
  score_of-parts :
      score_of (merge (structural_facts facts) (av_facts facts)).findings ≡ score_of facts.findings
  unfolding merge structural_facts av_facts
  score_of-parts =
      rw (merged_findings facts.findings d h)
        (score_of-perm (partition_perm is_clamav facts.findings))

  failed-parts :
      intersects (merge (structural_facts facts) (av_facts facts)).failed_stages essential_stages
      ≡ intersects facts.failed_stages essential_stages
  unfolding merge structural_facts av_facts
  failed-parts =
      intersects-union (keep (λ s. not (str_eq s "clamav")) facts.failed_stages)
        (keep (λ s. str_eq s "clamav") facts.failed_stages) essential_stages
      ∙ any-partition (λ s. str_eq s "clamav") (λ s. contains s essential_stages)
          facts.failed_stages

  -- Facts with different codes and without a finding of the client's claims: their two halves, merged,
  -- have the verdict and the score of the whole under any policy.
  pub verdict_of-parts :
      (policy : TenantPolicy)
      → verdict_of (merge (structural_facts facts) (av_facts facts)) policy
        ≡ verdict_of facts policy
  unfolding verdict_of coverage_incomplete merge structural_facts av_facts
  verdict_of-parts policy = ground (arith, score_of-parts, failed-parts)

-- `assemble` of what `_store_cache` puts in the cache for a result with facts that have different codes
-- and no finding of the client's claims has the verdict and the score that the facts themselves have
-- under the policy of the request.
pub assemble-store :
    (job : ScanJob) (r : ScanResult) (facts : ScanFacts) (policy : TenantPolicy)
    (rules_version av_db_version scan_id : String)
    → IsDistinct (codes_of facts.findings)
    → any is_request_derived facts.findings ≡ false
    → ((assemble
          (structural_of job r facts rules_version)
          (av_of r facts av_db_version)
          policy
          scan_id).verdict
        ≡ (verdict_of facts policy).0)
      × ((assemble
            (structural_of job r facts rules_version)
            (av_of r facts av_db_version)
            policy
            scan_id).score
          ≡ (verdict_of facts policy).1)
unfolding assemble structural_of av_of
assemble-store job r facts policy rules_version av_db_version scan_id d h = (
  ap (λ v. v.0) (verdict_of-parts facts d h policy),
  ap (λ v. v.1) (verdict_of-parts facts d h policy),
)
