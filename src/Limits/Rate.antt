-- ===== src/Limits/Rate.antt =====
-- The rate of requests: `RateLimiter.check` of packages/vscommon/ratelimit.py.
use Prim.Native.String.{◌++◌ as append}
use vulnscan.Base.{
  ℕ, ◌+◌, ◌-◌, ◌*◌, ◌/◌, ◌%◌, ◌≤◌, max, String, Bool, true, false, not, ◌&&◌, List, [], ◌∷◌, str_eq,
  ltb, ◌==◌, if◌then◌else◌, ◌≡◌, refl, ap, eq_iff, arith, ◌≢◌, Bool-cases, inl, inr,
}
use vulnscan.Limits.Counters.{Counters}

-- `WINDOW_S`
abbrev pub window_s : ℕ
window_s = 60

-- A request: the tenant, and the second that it comes in.
pub record Request : Type 0 where
  pub tenant : String
  pub now : ℕ

-- `decimal` prints the number of a window.
module _ (S : Type 0) (redis : Counters S) (decimal : ℕ → String) (limit : ℕ) where
  -- `_key`
  abbrev pub rate_key : String → ℕ → String
  rate_key tenant bucket = append "rl:" (append tenant (append ":" (decimal bucket)))

  abbrev pub key_of : Request → String
  key_of e = rate_key e.tenant (e.now / window_s)

  -- `observed > limit_per_min`, where `observed` is the count of this window and the part of the last
  -- one that still counts, in sixtieths.
  abbrev pub is_over : ℕ → ℕ → ℕ → Bool
  is_over now previous current =
      ltb (limit * window_s) (previous * (window_s - now % window_s) + current * window_s)

  -- `check`: the request is counted before it is judged.
  unfoldable pub check : Request → S → Bool × S
  check e s =
      let s' = redis.incrby (key_of e) 1 s in
      let previous = redis.get (rate_key e.tenant (e.now / window_s - 1)) s' in
      if limit == 0 then (true, s) else (not (is_over e.now previous (redis.get (key_of e) s')), s')

  -- The requests let in on one key.
  unfoldable pub let_in : String → List Request → S → ℕ
  unfolding check
  let_in key [] s = 0
  let_in key (e ∷ es) s =
      let (allowed, s') = check e s in
      let rest = let_in key es s' in if str_eq (key_of e) key && allowed then 1 + rest else rest

  abbrev counted : Request → S → S
  counted e s = redis.incrby (key_of e) 1 s

  abbrev judged : Request → S → Bool
  judged e s = not (
      is_over e.now (redis.get (rate_key e.tenant (e.now / window_s - 1)) (counted e s))
        (redis.get (key_of e) (counted e s)))

  check-counted : (e : Request) (s : S) → limit ≢ 0 → check e s ≡ (judged e s, counted e s)
  unfolding check
  check-counted e s h = elim (Bool-cases (limit == 0)) [
    | inl z ↦ absurd (h (ground arith))
    | inr z ↦ rw z refl
  ]

  abbrev share : String → Request → Bool → ℕ → ℕ
  share key e allowed rest = if str_eq (key_of e) key && allowed then 1 + rest else rest

  let_in-counted :
      (key : String) (e : Request) (es : List Request) (s : S)
      → limit ≢ 0
      → let_in key (e ∷ es) s ≡ share key e (judged e s) (let_in key es (counted e s))
  unfolding let_in
  let_in-counted key e es s h = ap (λ r. share key e r.0 (let_in key es r.1)) (check-counted e s h)

  -- A request that is let in finds no more than the limit counted in its window.
  is_over-le : (now previous current : ℕ) → is_over now previous current ≡ false → current ≤ limit
  is_over-le now previous current h = ground arith

  let_in-bound :
      (key : String) (es : List Request) (s : S)
      → limit ≢ 0
      → let_in key es s + redis.get key s ≤ max limit (redis.get key s)
  let_in-bound key [] s h = unfold let_in in omega arith
  let_in-bound key (e ∷ es) s h =
      let same = redis.get-incrby (key_of e) key 1 s in
      let step = let_in-counted key e es s h in
      let rest = let_in-bound key es (counted e s) h in
      elim (Bool-cases (str_eq (key_of e) key)) [
        | inr n ↦ omega (arith, rw n at step, rw n at same, rest)
        | inl y ↦
            let alike : redis.get (key_of e) (counted e s) ≡ redis.get key (counted e s) =
              ap (λ k. redis.get k (counted e s)) ((eq_iff (key_of e) key).0 y) in
            elim (Bool-cases (judged e s)) [
              | inr over ↦ omega (arith, rw (y, over) at step, rw y at same, rest)
              | inl under ↦
                  let low : redis.get (key_of e) (counted e s) ≤ limit =
                    is_over-le e.now
                      (redis.get (rate_key e.tenant (e.now / window_s - 1)) (counted e s))
                      (redis.get (key_of e) (counted e s)) (ground (arith, under)) in
                  omega (arith, rw (y, under) at step, rw y at same, rest, alike, low)
            ]
      ]

  -- A tenant gets no more requests in during one window than the limit per minute, if there is one,
  -- however the requests of all tenants and windows are mixed and whatever was counted in the window
  -- before, from a counter that starts at zero.
  pub let_in-le :
      (tenant : String) (bucket : ℕ) (es : List Request) (s : S)
      → limit ≢ 0
      → redis.get (rate_key tenant bucket) s ≡ 0
      → let_in (rate_key tenant bucket) es s ≤ limit
  let_in-le tenant bucket es s h z = omega (arith, let_in-bound (rate_key tenant bucket) es s h, z)
