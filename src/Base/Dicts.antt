-- ===== src/Base/Dicts.antt =====
-- A Python dict keyed by texts, as an association list in insertion order.
use Prim.Native.Nat.{ℕ, ◌+◌}
use Prim.Native.String.{String}
use mathlib.Core.Path.{◌≡◌, refl}
use mathlib.Core.Option.{Option, none, some}
use mathlib.Core.Bool.{false, ◌||◌}
use mathlib.Core.List.{List, [], ◌∷◌}
use native.Mathlib.Omega.{arith}
use text.Mathlib.Text.{◌==◌ as str_eq}
use text.Mathlib.TextEquality.{eq_iff}
use mathlib.Core.Logic.{inl, inr}
use vulnscan.Base.Tests.{if◌then◌else◌, Bool-cases}
use vulnscan.Base.Lists.{contains}

abbrev pub Dict {ℓ} : Type ℓ → Type ℓ
Dict V = List (String × V)

module _ {ℓ} {V : Type ℓ} where
  -- `d.get(k)`
  unfoldable pub lookup : String → Dict V → Option V
  lookup k [] = none
  lookup k ((j, v) ∷ d) = if str_eq j k then some v else lookup k d

  -- `d.get(k, default)`
  unfoldable pub get_or : String → Dict V → V → V
  get_or k [] v = v
  get_or k ((j, w) ∷ d) v = if str_eq j k then w else get_or k d v

  -- `d[k] = v`
  unfoldable pub insert : String → V → Dict V → Dict V
  insert k v [] = (k, v) ∷ []
  insert k v ((j, w) ∷ d) = if str_eq j k then (j, v) ∷ d else (j, w) ∷ insert k v d

  pub lookup-insert :
      (k j : String) (v : V) (d : Dict V)
      → lookup j (insert k v d) ≡ (if str_eq k j then some v else lookup j d)
  unfolding lookup insert
  lookup-insert k j v [] = refl
  lookup-insert k j v ((i, w) ∷ d) =
      ground (arith, eq_iff k j, eq_iff i k, eq_iff i j, lookup-insert k j v d)

  pub get_or-insert :
      (k j : String) (v : V) (d : Dict V) (w : V)
      → get_or j (insert k v d) w ≡ (if str_eq k j then v else get_or j d w)
  unfolding get_or insert
  get_or-insert k j v [] w = refl
  get_or-insert k j v ((i, u) ∷ d) w =
      ground (arith, eq_iff k j, eq_iff i k, eq_iff i j, get_or-insert k j v d w)

-- `d.get(k, v)` by the search.
pub get_or-lookup {ℓ} :
    {V : Type ℓ} (k : String) (d : Dict V) (v : V)
    → get_or k d v ≡ elim (lookup k d) [ none ↦ v | some w ↦ w ]
unfolding get_or lookup
get_or-lookup k [] v = refl
get_or-lookup k ((j, w) ∷ d) v = elim (Bool-cases (str_eq j k)) [
  | inl h ↦ rw h refl
  | inr h ↦ rw h (get_or-lookup k d v)
]

-- `sum(d.values())`
unfoldable pub sum_values : Dict ℕ → ℕ
sum_values [] = 0
sum_values ((k, v) ∷ d) = v + sum_values d

-- A write changes the sum by the difference between the new value and the old.
pub sum_values-insert :
    (k : String) (v : ℕ) (d : Dict ℕ) → sum_values (insert k v d) + get_or k d 0 ≡ sum_values d + v
unfolding sum_values insert get_or
sum_values-insert k v [] = omega arith
sum_values-insert k v ((j, w) ∷ d) = ground (arith, sum_values-insert k v d)

-- `{**d, **e}`
unfoldable pub update {ℓ} : {V : Type ℓ} → Dict V → Dict V → Dict V
unfolding insert
update d [] = d
update d ((k, v) ∷ e) = update (insert k v d) e

-- Each text of the list stands in it once.
abbrev pub IsDistinct : List String → Type 0
IsDistinct [] = Unit
IsDistinct (k ∷ ks) = (contains k ks ≡ false) × IsDistinct ks

abbrev pub keys {ℓ} : {V : Type ℓ} → Dict V → List String
keys [] = []
keys ((k, v) ∷ d) = k ∷ keys d

-- `a if a is not None else b`
abbrev pub first_some {ℓ} : {V : Type ℓ} → Option V → Option V → Option V
first_some none b = b
first_some (some a) b = some a

module _ {ℓ} {V : Type ℓ} where
  pub lookup_absent : (k : String) (d : Dict V) → contains k (keys d) ≡ false → lookup k d ≡ none
  unfolding lookup
  lookup_absent k [] h = refl
  lookup_absent k ((j, v) ∷ d) h = ground (arith, lookup_absent k d)

  -- Reading a merged dict: the second one wins.
  pub lookup-update :
      (k : String) (d e : Dict V)
      → IsDistinct (keys e)
      → lookup k (update d e) ≡ first_some (lookup k e) (lookup k d)
  unfolding lookup update
  lookup-update k d [] h = refl
  lookup-update k d ((j, v) ∷ e) h = ground (
    arith,
    eq_iff j k,
    lookup-update k (insert j v d) e h.1,
    lookup-insert j k v d,
    lookup_absent k e,
  )

  pub contains-keys-insert :
      (j k : String) (v : V) (d : Dict V)
      → contains j (keys (insert k v d)) ≡ (contains j (keys d) || str_eq k j)
  unfolding insert
  contains-keys-insert j k v [] = ground arith
  contains-keys-insert j k v ((i, w) ∷ d) =
      ground (arith, eq_iff i k, eq_iff i j, eq_iff k j, contains-keys-insert j k v d)

  pub insert-IsDistinct :
      (k : String) (v : V) (d : Dict V) → IsDistinct (keys d) → IsDistinct (keys (insert k v d))
  unfolding insert
  insert-IsDistinct k v [] h = (refl, tt)
  insert-IsDistinct k v ((j, w) ∷ d) h =
      ground
        (arith, eq_iff j k, eq_iff k j, contains-keys-insert j k v d, insert-IsDistinct k v d h.1)

  pub update-IsDistinct : (d e : Dict V) → IsDistinct (keys d) → IsDistinct (keys (update d e))
  unfolding update
  update-IsDistinct d [] h = h
  update-IsDistinct d ((k, v) ∷ e) h =
      update-IsDistinct (insert k v d) e (insert-IsDistinct k v d h)
