-- ===== src/Risk/Score/Laws.antt =====
-- Laws of `score_of` (packages/vscommon/scoring.py): its range, more findings, their order.
use mathlib.Core.List.{Perm, Permᴰ}
use mathlib.Core.Logic.{∥∥₁_elim}
use native.Mathlib.Nat.{ℕ_set}
use vulnscan.Base.{
  ℕ, ◌+◌, max, ◌≤◌, String, List, [], ◌∷◌, ◌++◌, Dict, get_or, sum_values, sum_values-insert,
  get_or-insert, any-append, str_eq, eq_iff, ◌≡◌, refl, ◌∙◌, arith, leb, if◌then◌else◌,
}
use vulnscan.Risk.Model.{Finding}
use vulnscan.Risk.Families.{family_of}
use vulnscan.Risk.Score.{has_critical, note_strongest, strongest_of, score_of}

-- A score is at most 100, whatever the findings weigh.
pub score_of-le : (fs : List Finding) → score_of fs ≤ 100
unfolding score_of
score_of-le fs = ground arith

sum-note_strongest-le : (d : Dict ℕ) (f : Finding) → sum_values d ≤ sum_values (note_strongest d f)
sum-note_strongest-le d f =
    omega
      (arith, sum_values-insert (family_of f.code) (max (get_or (family_of f.code) d 0) f.score) d)

sum-strongest_of-le :
    (fs : List Finding) (d : Dict ℕ) → sum_values d ≤ sum_values (strongest_of fs d)
unfolding strongest_of
sum-strongest_of-le [] d = omega arith
sum-strongest_of-le (f ∷ fs) d =
    omega (arith, sum-note_strongest-le d f, sum-strongest_of-le fs (note_strongest d f))

strongest_of-append :
    (fs gs : List Finding) (d : Dict ℕ)
    → strongest_of (fs ++ gs) d ≡ strongest_of gs (strongest_of fs d)
unfolding strongest_of
strongest_of-append [] gs d = refl
strongest_of-append (f ∷ fs) gs d = strongest_of-append fs gs (note_strongest d f)

-- Further findings never lower the score.
pub score_of-append : (fs gs : List Finding) → score_of fs ≤ score_of (fs ++ gs)
unfolding score_of
score_of-append fs gs = ground (
  arith,
  any-append (λ (f : Finding). leb 100 f.score) fs gs,
  strongest_of-append fs gs [],
  sum-strongest_of-le gs (strongest_of fs []),
)

module _ (f : Finding) (d : Dict ℕ) where
  sum-note_strongest :
      sum_values (note_strongest d f) + get_or (family_of f.code) d 0
      ≡ sum_values d + max (get_or (family_of f.code) d 0) f.score
  sum-note_strongest =
      sum_values-insert (family_of f.code) (max (get_or (family_of f.code) d 0) f.score) d

  get_or-note_strongest :
      (k : String)
      → get_or k (note_strongest d f) 0 ≡ (
          if str_eq (family_of f.code) k
          then max (get_or (family_of f.code) d 0) f.score
          else get_or k d 0)
  get_or-note_strongest k =
      get_or-insert (family_of f.code) k (max (get_or (family_of f.code) d 0) f.score) d 0

-- Two dicts that a sum and a lookup do not tell apart.
record IsSame (d e : Dict ℕ) : Type 0 where
  sums : sum_values d ≡ sum_values e
  reads : (k : String) → get_or k d 0 ≡ get_or k e 0

IsSame-refl : (d : Dict ℕ) → IsSame d d
IsSame-refl d = record { sums = refl; reads = λ k. refl }

IsSame-trans : {c d e : Dict ℕ} → IsSame c d → IsSame d e → IsSame c e
IsSame-trans s t = record { sums = s.sums ∙ t.sums; reads = λ k. s.reads k ∙ t.reads k }

IsSame-note_strongest :
    (d e : Dict ℕ) (f : Finding) → IsSame d e → IsSame (note_strongest d f) (note_strongest e f)
IsSame-note_strongest d e f s = record {
  sums =
      omega
        (arith, s.sums, s.reads (family_of f.code), sum-note_strongest f d, sum-note_strongest f e);
  reads = λ j. ground (
    arith,
    s.reads (family_of f.code),
    s.reads j,
    get_or-note_strongest f d j,
    get_or-note_strongest f e j,
  );
}

IsSame-strongest_of :
    (fs : List Finding) (d e : Dict ℕ) → IsSame d e → IsSame (strongest_of fs d) (strongest_of fs e)
unfolding strongest_of
IsSame-strongest_of [] d e s = s
IsSame-strongest_of (f ∷ fs) d e s = IsSame-strongest_of fs _ _ (IsSame-note_strongest d e f s)

-- Two findings may be noted in either order.
module _ (f g : Finding) (d : Dict ℕ) where
  get_or-swap :
      (k : String)
      → get_or k (note_strongest (note_strongest d f) g) 0
        ≡ get_or k (note_strongest (note_strongest d g) f) 0
  get_or-swap k = ground (
    arith,
    eq_iff (family_of f.code) (family_of g.code),
    eq_iff (family_of g.code) (family_of f.code),
    eq_iff (family_of f.code) k,
    eq_iff (family_of g.code) k,
    get_or-note_strongest g (note_strongest d f) k,
    get_or-note_strongest f (note_strongest d g) k,
    get_or-note_strongest f d k,
    get_or-note_strongest g d k,
    get_or-note_strongest f d (family_of g.code),
    get_or-note_strongest g d (family_of f.code),
  )

  sum-swap :
      sum_values (note_strongest (note_strongest d f) g)
      ≡ sum_values (note_strongest (note_strongest d g) f)
  sum-swap = ground (
    arith,
    eq_iff (family_of f.code) (family_of g.code),
    eq_iff (family_of g.code) (family_of f.code),
    sum-note_strongest g (note_strongest d f),
    sum-note_strongest f (note_strongest d g),
    sum-note_strongest f d,
    sum-note_strongest g d,
    get_or-note_strongest f d (family_of g.code),
    get_or-note_strongest g d (family_of f.code),
  )

  IsSame-swap :
      IsSame (note_strongest (note_strongest d f) g) (note_strongest (note_strongest d g) f)
  IsSame-swap = record { sums = sum-swap; reads = get_or-swap }

IsSame-perm :
    {fs gs : List Finding}
    → Permᴰ fs gs
    → (d : Dict ℕ) → IsSame (strongest_of fs d) (strongest_of gs d)
unfolding strongest_of
IsSame-perm Permᴰ.nil d = IsSame-refl d
IsSame-perm (Permᴰ.cons {b = f} e p) d = rw e (IsSame-perm p (note_strongest d f))
IsSame-perm (Permᴰ.swap {a = f} {b = g} {l = fs} e e') d =
    rw (← e, ← e') (IsSame-strongest_of fs _ _ (IsSame-swap f g d))
IsSame-perm (Permᴰ.trans p q) d = IsSame-trans (IsSame-perm p d) (IsSame-perm q d)

has_critical-perm : {fs gs : List Finding} → Permᴰ fs gs → has_critical fs ≡ has_critical gs
has_critical-perm Permᴰ.nil = refl
has_critical-perm (Permᴰ.cons e p) = rw (e, has_critical-perm p)
has_critical-perm (Permᴰ.swap e e') = rw (e, e') (ground arith)
has_critical-perm (Permᴰ.trans p q) = has_critical-perm p ∙ has_critical-perm q

-- The score of a list of findings is the score of every list of the same findings in another order.
pub score_of-perm : {fs gs : List Finding} → Perm fs gs → score_of fs ≡ score_of gs
unfolding score_of
score_of-perm p = ∥∥₁_elim p (ℕ_set _ _) (λ q. rw (has_critical-perm q, (IsSame-perm q []).sums))
