-- ===== src/Scan/Members/Carried.antt =====
-- What a container takes over from a member: `ScanContext.adopt` of
-- services/worker/worker_app/stages/base.py.
use vulnscan.Base.{
  ℕ, str_eq, String, true, if◌then◌else◌, first_some, ◌||◌, Option, none, some, List, [], ◌∷◌, ◌++◌,
  ◌≡◌, refl, ◌∙◌, ap, inl, inr, arith, eq_iff, contains, union, keep, not, any-append, Bool-cases,
}
use vulnscan.Risk.Model.{Finding, Severity, codes_of}
use vulnscan.Scan.Model.{ScanContext}
use vulnscan.Scan.Context.{labelled, adopt_findings, adopt}
use vulnscan.Scan.Context.Growth.{Extends}

-- The codes of a member's findings, its failed stages and its two marks are in the container.
pub record IsCarried (child ctx : ScanContext) : Type 0 where
  pub codes :
      (code : String)
      → contains code (codes_of child.findings) ≡ true
      → contains code (codes_of ctx.findings) ≡ true
  pub encrypted : child.encrypted ≡ true → ctx.encrypted ≡ true
  pub supported : ctx.supported ≡ true → child.supported ≡ true
  pub failed :
      (s : String) → contains s child.failed_stages ≡ true → contains s ctx.failed_stages ≡ true

-- The stage, the severity and the score of the first finding with a code.
abbrev pub weight_of : String → List Finding → Option (String × Severity × ℕ)
weight_of code [] = none
weight_of code (f ∷ fs) =
    if str_eq f.code code then some (f.stage, f.severity, f.score) else weight_of code fs

-- A code weighs in the container after it took over a member what it weighed there before, or else
-- what it weighs in the member.
abbrev pub IsWeighed : ScanContext → ScanContext → ScanContext → Type 0
IsWeighed before child ctx =
    (code : String)
    → weight_of code ctx.findings
      ≡ first_some (weight_of code before.findings) (weight_of code child.findings)

codes-append : (fs gs : List Finding) → codes_of (fs ++ gs) ≡ codes_of fs ++ codes_of gs
codes-append [] gs = refl
codes-append (f ∷ fs) gs = ap (λ cs. f.code ∷ cs) (codes-append fs gs)

contains-codes-append :
    (code : String) (fs gs : List Finding)
    → contains code (codes_of (fs ++ gs))
      ≡ (contains code (codes_of fs) || contains code (codes_of gs))
contains-codes-append code fs gs =
    ap (contains code) (codes-append fs gs)
    ∙ any-append (λ x. str_eq x code) (codes_of fs) (codes_of gs)

-- The codes after the adoption are those of both.
adopt_findings-codes :
    (label code : String) (fs own : List Finding)
    → contains code (codes_of (adopt_findings label fs own))
      ≡ (contains code (codes_of own) || contains code (codes_of fs))
unfolding adopt_findings
adopt_findings-codes label code [] own = ground arith
adopt_findings-codes label code (f ∷ fs) own = elim (Bool-cases (contains f.code (codes_of own))) [
  | inl e ↦
      rw (e, adopt_findings)
        (ground (arith, adopt_findings-codes label code fs own, eq_iff f.code code))
  | inr e ↦
      let f' = record f { detail = some (labelled label f.detail) } in
      rw (e, adopt_findings)
        (ground (
          arith,
          adopt_findings-codes label code fs (own ++ f' ∷ []),
          contains-codes-append code own (f' ∷ []),
        ))
]

contains-keep :
    (s : String) (xs ys : List String)
    → (contains s xs || contains s (keep (λ y. not (contains y xs)) ys))
      ≡ (contains s xs || contains s ys)
contains-keep s xs [] = refl
contains-keep s xs (y ∷ ys) = elim (Bool-cases (str_eq y s)) [
  | inl e ↦ rw ((eq_iff y s).0 e) (ground (arith, contains-keep s xs ys))
  | inr e ↦ ground (arith, contains-keep s xs ys)
]

contains-union_right :
    (s : String) (xs ys : List String) → contains s ys ≡ true → contains s (union xs ys) ≡ true
contains-union_right s xs ys h =
    any-append (λ x. str_eq x s) xs _ ∙ contains-keep s xs ys ∙ ground (arith, h)

-- A container knows what its members showed: adopting a member takes over the codes of its findings,
-- its failed stages, that it is locked and that it could not be checked.
pub adopt-IsCarried :
    (child ctx : ScanContext) (label : String) → IsCarried child (adopt child label ctx)
unfolding adopt
adopt-IsCarried child ctx label = record {
  codes = λ code h. adopt_findings-codes label code child.findings ctx.findings ∙ ground (arith, h);
  encrypted = λ h. ground (arith, h);
  supported = λ h. ground (arith, h);
  failed = λ s h. contains-union_right s ctx.failed_stages child.failed_stages h;
}

pub IsCarried-later :
    {child a b : ScanContext} → IsCarried child a → Extends a b → IsCarried child b
IsCarried-later {child} {a} {b} c p = record {
  codes = λ code h.
      ap (λ fs. contains code (codes_of fs)) p.findings
      ∙ contains-codes-append code a.findings p.more
      ∙ rw (c.codes code h) refl;
  encrypted = λ h. p.encrypted (c.encrypted h);
  supported = λ h. c.supported (p.supported h);
  failed = λ s h. p.failed s (c.failed s h);
}

weight_of-append :
    (code : String) (fs gs : List Finding)
    → weight_of code (fs ++ gs) ≡ first_some (weight_of code fs) (weight_of code gs)
weight_of-append code [] gs = refl
weight_of-append code (f ∷ fs) gs = ground (arith, weight_of-append code fs gs)

weight_of-present :
    (code : String) (fs : List Finding) (x : Option (String × Severity × ℕ))
    → contains code (codes_of fs) ≡ true
    → first_some (weight_of code fs) x ≡ weight_of code fs
weight_of-present code [] x h = cc
weight_of-present code (f ∷ fs) x h = ground (arith, weight_of-present code fs x)

-- The weights after the adoption: those of the container, and those of the member for other codes.
adopt_findings-weight :
    (label code : String) (fs own : List Finding)
    → weight_of code (adopt_findings label fs own)
      ≡ first_some (weight_of code own) (weight_of code fs)
unfolding adopt_findings
adopt_findings-weight label code [] own = ground arith
adopt_findings-weight label code (f ∷ fs) own = elim (Bool-cases (contains f.code (codes_of own))) [
  | inl e ↦
      rw (e, adopt_findings)
        (ground (
          arith,
          adopt_findings-weight label code fs own,
          eq_iff f.code code,
          weight_of-present code own (weight_of code fs),
          weight_of-present code own (some (f.stage, f.severity, f.score)),
        ))
  | inr e ↦
      let f' = record f { detail = some (labelled label f.detail) } in
      rw (e, adopt_findings)
        (ground (
          arith,
          adopt_findings-weight label code fs (own ++ f' ∷ []),
          weight_of-append code own (f' ∷ []),
        ))
]

pub adopt-IsWeighed :
    (child ctx : ScanContext) (label : String) → IsWeighed ctx child (adopt child label ctx)
unfolding adopt
adopt-IsWeighed child ctx label code = adopt_findings-weight label code child.findings ctx.findings
