-- ===== src/Limits/Quota.antt =====
-- The daily quota: `DailyQuota.spend` of packages/vscommon/quota.py.
use Prim.Native.String.{◌++◌ as append}
use vulnscan.Base.{
  ℕ, ◌+◌, ◌≤◌, max, String, Bool, true, false, not, ◌&&◌, List, [], ◌∷◌, str_eq, leb, ◌==◌,
  if◌then◌else◌, ◌≡◌, refl, ap, ◌∙◌, eq_iff, arith, ◌≢◌, Bool-cases, inl, inr,
}
use vulnscan.Limits.Counters.{Counters}

-- `_key`, for a day that `strftime` prints.
abbrev pub quota_key : String → String → String → String
quota_key prefix today subject = append prefix (append ":" (append today (append ":" subject)))

-- One call of `spend`: the day it falls on, and whether Redis answers it.
pub record Spending : Type 0 where
  pub today : String
  pub subject : String
  pub amount : ℕ
  pub answered : Bool

module _ (S : Type 0) (redis : Counters S) (prefix : String) (limit : ℕ) where
  -- `spend`: the increment comes first, and the comparison reads what it returned.
  unfoldable pub spend : Spending → S → Bool × S
  spend e s =
      let key = quota_key prefix e.today e.subject in
      let s' = redis.incrby key e.amount s in
      if limit == 0
      then (true, s)
      else if not e.answered
      then (true, s)
      else (leb (redis.get key s') limit, s')

  -- What is let through on one key in a run of calls, of those that Redis answers.
  unfoldable pub let_through : String → List Spending → S → ℕ
  unfolding spend
  let_through key [] s = 0
  let_through key (e ∷ es) s =
      let (allowed, s') = spend e s in
      let rest = let_through key es s' in
      if str_eq (quota_key prefix e.today e.subject) key && (e.answered && allowed)
      then e.amount + rest
      else rest

  abbrev key_of : Spending → String
  key_of e = quota_key prefix e.today e.subject

  abbrev counted : Spending → S → S
  counted e s = redis.incrby (key_of e) e.amount s

  spend-silent : (e : Spending) (s : S) → limit ≢ 0 → e.answered ≡ false → spend e s ≡ (true, s)
  unfolding spend
  spend-silent e s h a = elim (Bool-cases (limit == 0)) [
    | inl z ↦ absurd (h (ground arith))
    | inr z ↦ rw (z, a) refl
  ]

  spend-answered :
      (e : Spending) (s : S)
      → limit ≢ 0
      → e.answered ≡ true
      → spend e s ≡ (leb (redis.get (key_of e) (counted e s)) limit, counted e s)
  unfolding spend
  spend-answered e s h a = elim (Bool-cases (limit == 0)) [
    | inl z ↦ absurd (h (ground arith))
    | inr z ↦ rw (z, a) refl
  ]

  -- The amount that a call adds to what is let through.
  abbrev share : String → Spending → Bool → ℕ → ℕ
  share key e allowed rest =
      if str_eq (key_of e) key && (e.answered && allowed) then e.amount + rest else rest

  let_through-silent :
      (key : String) (e : Spending) (es : List Spending) (s : S)
      → limit ≢ 0
      → e.answered ≡ false
      → let_through key (e ∷ es) s ≡ let_through key es s
  unfolding let_through
  let_through-silent key e es s h a =
      ap (λ r. share key e r.0 (let_through key es r.1)) (spend-silent e s h a) ∙ ground (arith, a)

  let_through-answered :
      (key : String) (e : Spending) (es : List Spending) (s : S)
      → limit ≢ 0
      → e.answered ≡ true
      → let_through key (e ∷ es) s ≡ (
          if str_eq (key_of e) key && leb (redis.get (key_of e) (counted e s)) limit
          then e.amount + let_through key es (counted e s)
          else let_through key es (counted e s))
  unfolding let_through
  let_through-answered key e es s h a =
      ap (λ r. share key e r.0 (let_through key es r.1)) (spend-answered e s h a)
      ∙ ground (arith, a)

  let_through-bound :
      (key : String) (es : List Spending) (s : S)
      → limit ≢ 0
      → let_through key es s + redis.get key s ≤ max limit (redis.get key s)
  let_through-bound key [] s h = unfold let_through in omega arith
  let_through-bound key (e ∷ es) s h = elim (Bool-cases e.answered) [
    | inr a ↦ omega (arith, let_through-silent key e es s h a, let_through-bound key es s h)
    | inl a ↦
        let same = redis.get-incrby (key_of e) key e.amount s in
        let step = let_through-answered key e es s h a in
        let rest = let_through-bound key es (counted e s) h in
        elim (Bool-cases (str_eq (key_of e) key)) [
          | inr n ↦ omega (arith, rw n at step, rw n at same, rest)
          | inl y ↦
              let alike : redis.get (key_of e) (counted e s) ≡ redis.get key (counted e s) =
                ap (λ k. redis.get k (counted e s)) ((eq_iff (key_of e) key).0 y) in
              ground (arith, step, same, rest, alike, y)
        ]
  ]

  -- A day's quota holds however the calls of all subjects and days are mixed: from a counter that
  -- starts at zero, the units let through for one subject on one day are at most the limit, if there
  -- is one, leaving out the calls that Redis does not answer.
  pub let_through-le :
      (today subject : String) (es : List Spending) (s : S)
      → limit ≢ 0
      → redis.get (quota_key prefix today subject) s ≡ 0
      → let_through (quota_key prefix today subject) es s ≤ limit
  let_through-le today subject es s h z =
      omega (arith, let_through-bound (quota_key prefix today subject) es s h, z)
