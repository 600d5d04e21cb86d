-- ===== src/Risk/Score/Spec.antt =====
-- What `score_of` (packages/vscommon/scoring.py) promises, without the dict: the strongest finding
-- of each family, added up over the families that occur.
use vulnscan.Base.{
  ℕ, ◌+◌, ◌-◌, max, String, true, false, List, [], ◌∷◌, Dict, get_or, sum_values, sum_values-insert,
  get_or-insert, contains, str_eq, eq_iff, eq_refl, if◌then◌else◌, ◌≡◌, refl, arith, ◌≢◌, subst,
  Bool-cases, inl, inr, min,
}
use vulnscan.Risk.Model.{Finding}
use vulnscan.Risk.Families.{family_of}
use vulnscan.Risk.Score.{has_critical, note_strongest, strongest_of, score_of}

abbrev pub family : Finding → String
family f = family_of f.code

-- The strongest finding of a family; 0 if it has none.
unfoldable pub family_max : String → List Finding → ℕ
family_max k [] = 0
family_max k (f ∷ fs) =
    if str_eq (family f) k then max f.score (family_max k fs) else family_max k fs

-- The families that occur, each once.
unfoldable pub families : List Finding → List String
families [] = []
families (f ∷ fs) =
    let rest = families fs in if contains (family f) rest then rest else family f ∷ rest

unfoldable pub sum_over : (String → ℕ) → List String → ℕ
sum_over g [] = 0
sum_over g (k ∷ ks) = g k + sum_over g ks

abbrev pub IsDistinct : List String → Type 0
IsDistinct [] = Unit
IsDistinct (k ∷ ks) = (contains k ks ≡ false) × IsDistinct ks

families-IsDistinct : (fs : List Finding) → IsDistinct (families fs)
unfolding families
families-IsDistinct [] = tt
families-IsDistinct (f ∷ fs) = elim (Bool-cases (contains (family f) (families fs))) [
  | inl old ↦ rw old (families-IsDistinct fs)
  | inr new ↦ rw new (new, families-IsDistinct fs)
]

family_max_absent :
    (k : String) (fs : List Finding) → contains k (families fs) ≡ false → family_max k fs ≡ 0
unfolding families family_max
family_max_absent k [] h = refl
family_max_absent k (f ∷ fs) h = ground (arith, family_max_absent k fs, eq_iff (family f) k)

module _ (g h : String → ℕ) (k : String) (same : (j : String) → j ≢ k → g j ≡ h j) where
  sum_over_absent : (ks : List String) → contains k ks ≡ false → sum_over g ks ≡ sum_over h ks
  unfolding sum_over
  sum_over_absent [] _ = refl
  sum_over_absent (j ∷ ks) e = ground (arith, eq_iff j k, same j, sum_over_absent ks)

  -- Two sums over distinct families that differ at one of them only.
  sum_over_update :
      (ks : List String)
      → IsDistinct ks
      → contains k ks ≡ true
      → sum_over g ks + h k ≡ sum_over h ks + g k
  unfolding sum_over
  sum_over_update [] d e = cc
  sum_over_update (j ∷ ks) d e = elim (Bool-cases (str_eq j k)) [
    | inl here ↦
        let p : j ≡ k = (eq_iff j k).0 here in
        let absent : contains k ks ≡ false = subst (λ x. contains x ks ≡ false) p d.0 in
        rw p (omega (arith, sum_over_absent ks absent))
    | inr there ↦ ground (arith, same j, eq_iff j k, sum_over_update ks d.1)
  ]

-- What a family adds to the sum of the dict `d` when the findings `fs` are noted.
abbrev gain : Dict ℕ → List Finding → String → ℕ
gain d fs k = max (get_or k d 0) (family_max k fs) - get_or k d 0

module _ (f : Finding) (fs : List Finding) (d : Dict ℕ) where
  gain_other : (j : String) → j ≢ family f → gain (note_strongest d f) fs j ≡ gain d (f ∷ fs) j
  unfolding family_max
  gain_other j h = ground (
    arith,
    get_or-insert (family f) j (max (get_or (family f) d 0) f.score) d 0,
    eq_iff (family f) j,
  )

  gain_self :
      gain d (f ∷ fs) (family f) + get_or (family f) d 0
      ≡ gain (note_strongest d f) fs (family f) + max (get_or (family f) d 0) f.score
  unfolding family_max
  gain_self = ground (
    arith,
    get_or-insert (family f) (family f) (max (get_or (family f) d 0) f.score) d 0,
    eq_refl (family f),
  )

  gain_absent :
      contains (family f) (families fs) ≡ false → gain (note_strongest d f) fs (family f) ≡ 0
  gain_absent h = omega (arith, family_max_absent (family f) fs h)

  sum-note_strongest :
      sum_values (note_strongest d f) + get_or (family f) d 0
      ≡ sum_values d + max (get_or (family f) d 0) f.score
  sum-note_strongest = sum_values-insert (family f) (max (get_or (family f) d 0) f.score) d

sum-strongest_of :
    (fs : List Finding) (d : Dict ℕ)
    → sum_values (strongest_of fs d) ≡ sum_values d + sum_over (gain d fs) (families fs)
unfolding strongest_of families sum_over
sum-strongest_of [] d = omega arith
sum-strongest_of (f ∷ fs) d =
    let g = gain (note_strongest d f) fs in
    let h = gain d (f ∷ fs) in
    let ih = sum-strongest_of fs (note_strongest d f) in
    elim (Bool-cases (contains (family f) (families fs))) [
      | inl old ↦ rw old (
          omega (
            arith,
            ih,
            gain_self f fs d,
            sum-note_strongest f fs d,
            sum_over_update g h (family f) (gain_other f fs d) (families fs)
                (families-IsDistinct fs) old,
          ))
      | inr new ↦ rw new (
          omega (
            arith,
            ih,
            gain_self f fs d,
            gain_absent f fs d new,
            sum-note_strongest f fs d,
            sum_over_absent g h (family f) (gain_other f fs d) (families fs) new,
          ))
    ]

sum_over-gain :
    (fs : List Finding) (ks : List String)
    → sum_over (gain [] fs) ks ≡ sum_over (λ k. family_max k fs) ks
unfolding sum_over get_or
sum_over-gain fs [] = refl
sum_over-gain fs (k ∷ ks) = omega (arith, sum_over-gain fs ks)

-- The score is 100 if one finding alone weighs 100, and else the sum of the strongest findings of
-- the families that occur, at most 100.
pub score_of-families :
    (fs : List Finding)
    → score_of fs
      ≡ (if has_critical fs then 100 else min 100 (sum_over (λ k. family_max k fs) (families fs)))
unfolding score_of sum_values
score_of-families fs = rw (sum-strongest_of fs [], sum_over-gain) (ground arith)
