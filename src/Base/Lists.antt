-- ===== src/Base/Lists.antt =====
-- Lists measured by native numbers, and the Boolean searches over them that the source writes as
-- `any`, `in` and comprehensions.
use Prim.Native.Nat.{ℕ, suc, ◌+◌, ◌≤◌}
use Prim.Native.String.{String}
use mathlib.Core.Path.{◌≡◌, refl, ◌∙◌}
use mathlib.Core.Bool.{Bool, true, false, not, ◌||◌}
use mathlib.Core.List.{List, [], ◌∷◌, ◌++◌}
use native.Mathlib.Omega.{arith}
use text.Mathlib.Text.{◌==◌ as str_eq}
use text.Mathlib.TextEquality.{eq_iff}
use vulnscan.Base.Tests.{if◌then◌else◌}

module _ {ℓ} {A : Type ℓ} where
  abbrev pub length : List A → ℕ
  length [] = 0
  length (x ∷ xs) = suc (length xs)

  -- `any(p(x) for x in xs)`
  abbrev pub any : (A → Bool) → List A → Bool
  any p [] = false
  any p (x ∷ xs) = p x || any p xs

  -- `[x for x in xs if p(x)]`
  abbrev pub keep : (A → Bool) → List A → List A
  keep p [] = []
  keep p (x ∷ xs) = if p x then x ∷ keep p xs else keep p xs

  pub length-append : (xs ys : List A) → length (xs ++ ys) ≡ length xs + length ys
  length-append [] ys = omega arith
  length-append (x ∷ xs) ys = omega (arith, length-append xs ys)

  pub any-append : (p : A → Bool) (xs ys : List A) → any p (xs ++ ys) ≡ (any p xs || any p ys)
  any-append p [] ys = refl
  any-append p (x ∷ xs) ys = ground (arith, any-append p xs ys)

  pub length-keep : (p : A → Bool) (xs : List A) → length (keep p xs) ≤ length xs
  length-keep p [] = omega arith
  length-keep p (x ∷ xs) = ground (arith, length-keep p xs)

-- `s in xs`, for a list or a set of texts.
abbrev pub contains : String → List String → Bool
contains s = any (λ x. str_eq x s)

-- `xs | ys`, for sets of texts.
abbrev pub union : List String → List String → List String
union xs ys = xs ++ keep (λ y. not (contains y xs)) ys

-- `bool(xs & ys)`
abbrev pub intersects : List String → List String → Bool
intersects xs ys = any (λ x. contains x ys) xs

pub intersects-append :
    (xs ys zs : List String) → intersects (xs ++ ys) zs ≡ (intersects xs zs || intersects ys zs)
intersects-append xs ys zs = any-append (λ x. contains x zs) xs ys

pub intersects_of_contains :
    (y : String) (xs zs : List String)
    → contains y xs ≡ true
    → contains y zs ≡ true
    → intersects xs zs ≡ true
intersects_of_contains y [] zs h k = cc
intersects_of_contains y (x ∷ xs) zs h k =
    ground (arith, eq_iff x y, intersects_of_contains y xs zs)

intersects-keep :
    (xs ys zs : List String)
    → (intersects xs zs || intersects (keep (λ y. not (contains y xs)) ys) zs)
      ≡ (intersects xs zs || intersects ys zs)
intersects-keep xs [] zs = refl
intersects-keep xs (y ∷ ys) zs =
    ground (arith, intersects-keep xs ys zs, intersects_of_contains y xs zs)

-- A union meets a set exactly when one of its two parts does.
pub intersects-union :
    (xs ys zs : List String) → intersects (union xs ys) zs ≡ (intersects xs zs || intersects ys zs)
intersects-union xs ys zs = intersects-append xs _ zs ∙ intersects-keep xs ys zs
