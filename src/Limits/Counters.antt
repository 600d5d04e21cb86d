-- ===== src/Limits/Counters.antt =====
-- The counters that the limits keep in Redis, as an interface: what packages/vscommon/quota.py and
-- packages/vscommon/ratelimit.py rely on of `INCRBY` and `GET`.
use vulnscan.Base.{
  ℕ, ◌+◌, String, Dict, get_or, insert, get_or-insert, str_eq, eq_iff, ◌≡◌, ◌∙◌, arith,
  if◌then◌else◌,
}

-- A store of counters: a number at each key, and an increment that changes one key alone. A key that was
-- never written, or whose time is over, counts as zero.
pub record Counters (S : Type 0) : Type 0 where
  pub get : String → S → ℕ
  pub incrby : String → ℕ → S → S
  pub get-incrby :
      (key other : String) (n : ℕ) (s : S)
      → get other (incrby key n s) ≡ (if str_eq key other then get other s + n else get other s)

pub dict-get-incrby :
    (key other : String) (n : ℕ) (d : Dict ℕ)
    → get_or other (insert key (get_or key d 0 + n) d) 0
      ≡ (if str_eq key other then get_or other d 0 + n else get_or other d 0)
dict-get-incrby key other n d =
    get_or-insert key other (get_or key d 0 + n) d 0 ∙ ground (arith, eq_iff key other)

-- A dict of counters is such a store.
abbrev pub dict_counters : Counters (Dict ℕ)
dict_counters = record {
  get = λ key d. get_or key d 0;
  incrby = λ key n d. insert key (get_or key d 0 + n) d;
  get-incrby = dict-get-incrby;
}
