-- ===== src/Limits/Tests.antt =====
-- Runs of the limits (packages/vscommon/quota.py, packages/vscommon/ratelimit.py,
-- packages/vscommon/callbacks.py) on small inputs, and
-- each theorem at an input that meets its hypotheses.
use vulnscan.Base.{
  ℕ, ◌≤◌, String, true, none, some, List, [], ◌∷◌, Dict, get_or, insert, ◌≡◌, ◌≢◌, refl, arith,
}
use vulnscan.Archive.Names.{decimal}
use vulnscan.Limits.Counters.{dict_counters}
use vulnscan.Limits.Quota.{Spending, quota_key, spend, let_through, let_through-le}
use vulnscan.Limits.Rate.{Request, rate_key, check, let_in, let_in-le}
use vulnscan.Limits.Addresses.{UrlParts}

program : Unit {0}
unfolding get_or insert spend let_through check let_in decimal
program = tt

abbrev spending : String → ℕ → Spending
spending subject amount = record {
  today = "2026-09-07";
  subject = subject;
  amount = amount;
  answered = true;
}

abbrev spendings : List Spending
spendings = spending "k" 2 ∷ spending "other" 9 ∷ spending "k" 2 ∷ spending "k" 1 ∷ []

-- Of a quota of four, two and two are let through and one more is not.
let_through_four :
    let_through (Dict ℕ) dict_counters "quota" 4 (quota_key "quota" "2026-09-07" "k") spendings []
    ≡ 4
unfolding program
let_through_four = refl

four_ne_zero : ◌≢◌ {A = ℕ} 4 0
four_ne_zero e = omega arith

let_through-le_example :
    let_through (Dict ℕ) dict_counters "quota" 4 (quota_key "quota" "2026-09-07" "k") spendings []
    ≤ 4
unfolding program
let_through-le_example =
    let_through-le (Dict ℕ) dict_counters "quota" 4 "2026-09-07" "k" spendings [] four_ne_zero refl

abbrev request : ℕ → Request
request now = record { tenant = "t"; now = now }

abbrev requests : List Request
requests = request 120 ∷ request 121 ∷ request 122 ∷ request 123 ∷ request 124 ∷ request 125 ∷ []

let_in-le_example :
    let_in
      (Dict ℕ)
      dict_counters
      decimal
      4
      (rate_key (Dict ℕ) dict_counters decimal 4 "t" 2)
      requests
      []
    ≤ 4
unfolding program
let_in-le_example = let_in-le (Dict ℕ) dict_counters decimal 4 "t" 2 requests [] four_ne_zero refl

abbrev parts : String → UrlParts
parts url = record {
  scheme = "https";
  username = none;
  password = none;
  hostname = some "client.example";
}
