-- ===== src/Queues.antt =====
-- The reading of the dead letters (`_step_back` and `DeadLetterQueue` of packages/vscommon/queue.py).
use vulnscan.Base.{
  ℕ, zero, suc, ◌+◌, ◌-◌, ◌≤◌, String, Bool, true, false, not, ◌&&◌, ◌||◌, Option, none, some, List,
  [], ◌∷◌, ◌++◌, length, keep, ltb, leb, ◌==◌, str_eq, ◌≡◌, if◌then◌else◌,
}
use vulnscan.Notifier.Model.{DeadLetter}
pub mod Pages
pub mod Recent
mod Tests

-- The identifier `<milliseconds>-<number>` of an entry.
pub record EntryId : Type 0 where
  pub ms : ℕ
  pub seq : ℕ

-- `18446744073709551615`
abbrev pub max_seq : ℕ
max_seq = 18446744073709551615

-- `_step_back`
unfoldable pub step_back : EntryId → EntryId
step_back id =
    if ltb 0 id.seq
    then record { ms = id.ms; seq = id.seq - 1 }
    else record { ms = id.ms - 1; seq = max_seq }

-- The order of the identifiers.
abbrev pub id_lt : EntryId → EntryId → Bool
id_lt a b = ltb a.ms b.ms || (a.ms == b.ms && ltb a.seq b.seq)

abbrev pub id_le : EntryId → EntryId → Bool
id_le a b = ltb a.ms b.ms || (a.ms == b.ms && leb a.seq b.seq)

-- `max=cursor`, where `+` is no bound.
abbrev pub is_within : Option EntryId → EntryId → Bool
is_within none id = true
is_within (some max) id = id_le id max

abbrev pub take {ℓ} : {A : Type ℓ} → ℕ → List A → List A
take zero xs = []
take (suc n) [] = []
take (suc n) (x ∷ xs) = x ∷ take n xs

-- Newest first, with the identifiers that Redis gives: not `0-0`, and the number in 64 bits.
abbrev pub IsBelow : {Raw : Type 0} → EntryId → List (EntryId × Raw) → Type 0
IsBelow id [] = Unit
IsBelow id (row ∷ rows) = (id_lt row.0 id ≡ true) × IsBelow id rows

abbrev pub IsOrdered : {Raw : Type 0} → List (EntryId × Raw) → Type 0
IsOrdered [] = Unit
IsOrdered (row ∷ rows) =
    (1 ≤ row.0.ms + row.0.seq) × (row.0.seq ≤ max_seq) × IsBelow row.0 rows × IsOrdered rows

-- What Redis promises of a stream that is read backwards.
pub record Stream (Raw : Type 0) : Type 0 where
  pub entries : List (EntryId × Raw)
  pub xrevrange : Option EntryId → ℕ → List (EntryId × Raw)
  pub ordered : IsOrdered entries
  pub xrevrange_law :
      (max : Option EntryId) (count : ℕ)
      → xrevrange max count ≡ take count (keep (λ row. is_within max row.0) entries)

-- `PAGE`
abbrev pub page_size : ℕ
page_size = 200

-- `tenant is None or entry.tenant == tenant`
abbrev same_tenant : String → Option String → Bool
same_tenant t none = false
same_tenant t (some u) = str_eq u t

abbrev pub is_wanted : Option String → DeadLetter → Bool
is_wanted none entry = true
is_wanted (some t) entry = same_tenant t entry.tenant

abbrev pub wanted : Option String → Option DeadLetter → Option DeadLetter
wanted tenant none = none
wanted tenant (some entry) = if is_wanted tenant entry then some entry else none

abbrev pub select_one : Option DeadLetter → List DeadLetter
select_one none = []
select_one (some entry) = entry ∷ []

-- The row whose identifier is the next cursor.
abbrev pub last_row : {Raw : Type 0} → EntryId × Raw → List (EntryId × Raw) → EntryId × Raw
last_row row [] = row
last_row row (next ∷ rows) = last_row next rows

-- The letters of the tenant among the rows.
abbrev pub select :
    {Raw : Type 0}
    → (Raw → Option DeadLetter)
    → Option String
    → List (EntryId × Raw)
    → List DeadLetter
select validate tenant [] = []
select validate tenant (row ∷ rows) =
    select_one (wanted tenant (validate row.1)) ++ select validate tenant rows

-- The reader: `model_validate_json`, how many are asked for, and of which tenant.
module _ {Raw : Type 0} (validate : Raw → Option DeadLetter) (count : ℕ)
    (tenant : Option String) where
  -- One row, in the loop over a page.
  abbrev pub note :
      Option DeadLetter → List DeadLetter → (List DeadLetter → List DeadLetter) → List DeadLetter
  note none found continue = continue found
  note (some entry) found continue =
      let found' = found ++ entry ∷ [] in if length found' == count then found' else continue found'

  -- The loop over a page.
  unfoldable pub collect : List (EntryId × Raw) → List DeadLetter → List DeadLetter
  collect [] found = found
  collect (row ∷ rows) found = note (wanted tenant (validate row.1)) found (collect rows)

  abbrev pub after_page :
      List (EntryId × Raw)
      → List DeadLetter
      → (EntryId → List DeadLetter → List DeadLetter)
      → List DeadLetter
  after_page [] found continue = found
  after_page (row ∷ rows) found continue =
      let found' = collect (row ∷ rows) found in
      if ltb (length (row ∷ rows)) page_size
      then found'
      else continue (step_back (last_row row rows).0) found'

  -- The loop over the pages.
  unfoldable pub recent_from : Stream Raw → ℕ → Option EntryId → List DeadLetter → List DeadLetter
  unfolding collect step_back
  recent_from stream zero cursor found = found
  recent_from stream (suc fuel) cursor found =
      if ltb (length found) count
      then after_page (stream.xrevrange cursor page_size) found
          (λ id. recent_from stream fuel (some id))
      else found

  -- `recent`
  unfoldable pub recent : Stream Raw → ℕ → List DeadLetter
  unfolding recent_from
  recent stream fuel = recent_from stream fuel none []
