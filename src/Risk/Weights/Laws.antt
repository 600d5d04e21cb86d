-- ===== src/Risk/Weights/Laws.antt =====
-- What the overrides of a tenant do to the weight table (`with_overrides` of
-- packages/vscommon/weights.py).
use vulnscan.Base.{
  String, Bool, Option, none, some, [], ◌∷◌, Dict, lookup, update, lookup-update, update-IsDistinct,
  IsDistinct, keys, first_some, eq_iff, ◌≡◌, refl, arith, ℤ,
}
use vulnscan.Risk.Weights.{
  Rule, WeightTable, fallback, default_weights, make_table, rule_for, override_rules,
  with_overrides,
}

-- What every table is: it holds each built-in code, and no code twice.
pub record IsTable (t : WeightTable) : Type 0 where
  pub defaults : (k : String) → lookup k t.rules ≡ none → lookup k default_weights ≡ none
  pub distinct : IsDistinct (keys t.rules)

abbrev rule_of : Option Rule → Rule
rule_of none = fallback
rule_of (some r) = r

rule_for-rule_of : (t : WeightTable) (k : String) → (rule_for t k).0 ≡ rule_of (lookup k t.rules)
unfolding rule_for
rule_for-rule_of t k = ground arith

rules-rule_for : (t : WeightTable) (k : String) → (rule_for t k).1.rules ≡ t.rules
unfolding rule_for
rules-rule_for t k = ground arith

default_weights-IsDistinct : IsDistinct (keys default_weights)
unfolding default_weights
default_weights-IsDistinct = ground arith

pub make_table-IsTable :
    (rules : Dict Rule) (degraded : Bool)
    → IsDistinct (keys rules)
    → IsTable (make_table rules degraded)
unfolding make_table
make_table-IsTable rules degraded d = record {
  defaults = λ k h. ground (arith, lookup-update k default_weights rules d);
  distinct = update-IsDistinct default_weights rules default_weights-IsDistinct;
}

keys-override_rules : (t : WeightTable) (o : Dict ℤ) → keys (override_rules t o).0 ≡ keys o
unfolding override_rules
keys-override_rules t [] = refl
keys-override_rules t ((code, score) ∷ o) = rw (keys-override_rules (rule_for t code).1 o)

abbrev with_score : ℤ → Rule → Rule
with_score score r = record { score = score; severity = r.severity }

lookup-override_rules :
    (t : WeightTable) (o : Dict ℤ) (k : String)
    → lookup k (override_rules t o).0 ≡ elim (lookup k o) [
      | none ↦ none
      | some score ↦ some (with_score score (rule_of (lookup k t.rules)))
    ]
unfolding override_rules lookup
lookup-override_rules t [] k = refl
lookup-override_rules t ((code, score) ∷ o) k = ground (
  arith,
  eq_iff code k,
  rule_for-rule_of t code,
  rules-rule_for t code,
  lookup-override_rules (rule_for t code).1 o k,
)

override_rules-IsDistinct :
    (t : WeightTable) (o : Dict ℤ) → IsDistinct (keys o) → IsDistinct (keys (override_rules t o).0)
override_rules-IsDistinct t o h = rw (keys-override_rules t o) h

-- The rules under `with_overrides`, where it does not return the table itself.
lookup-overridden :
    (t : WeightTable) (o : Dict ℤ) (k : String)
    → IsTable t
    → IsDistinct (keys o)
    → lookup k (update default_weights (update t.rules (override_rules t o).0))
      ≡ first_some (lookup k (override_rules t o).0) (lookup k t.rules)
lookup-overridden t o k h d =
    let merged = (override_rules t o).0 in
    ground (
      arith,
      lookup-update k default_weights (update t.rules merged)
          (update-IsDistinct t.rules merged h.distinct),
      lookup-update k t.rules merged (override_rules-IsDistinct t o d),
      h.defaults k,
    )

-- In a table that holds the built-in codes, and for overrides that name no code twice, an overridden
-- code weighs what the tenant says and keeps its severity; every other code keeps its
-- rule.
pub with_overrides-rule_for :
    (t : WeightTable) (o : Dict ℤ) (k : String)
    → IsTable t
    → IsDistinct (keys o)
    → (rule_for (with_overrides t o) k).0 ≡ elim (lookup k o) [
      | none ↦ (rule_for t k).0
      | some score ↦ record { score = score; severity = (rule_for t k).0.severity }
    ]
unfolding with_overrides make_table
with_overrides-rule_for t [] k h d = refl
with_overrides-rule_for t (e ∷ o) k h d = ground (
  arith,
  rule_for-rule_of t k,
  rule_for-rule_of (with_overrides t (e ∷ o)) k,
  lookup-overridden t (e ∷ o) k h d,
  lookup-override_rules t (e ∷ o) k,
)
