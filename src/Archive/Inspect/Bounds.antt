-- ===== src/Archive/Inspect/Bounds.antt =====
-- The budget in `inspect` (services/worker/worker_app/archive.py): what it lets through, in bytes
-- and in entries.
use vulnscan.Base.{
  ℕ, suc, ◌+◌, ◌-◌, ◌≤◌, String, Bool, true, false, List, [], ◌∷◌, ◌++◌, length, length-append,
  Option, ◌≡◌, ◌∙◌, inl, inr, refl, arith,
}
use vulnscan.Archive.Model.{
  ZipInfo, Member, Inventory, UnpackBudget, max_unpacked_bytes, max_archive_entries,
}
use vulnscan.Archive.Inspect.{
  choose, collect_members, inspect, sum_sizes, problem, note_volume, note_bomb, problem_if,
  note_locked, listed, settle, look_at, look_over, empty_inventory,
}
use vulnscan.Archive.Inspect.Choices.{Choice-cases, choose-take}

-- What the members of an inventory unpack to, as they declare it.
unfoldable pub sum_members : List Member → ℕ
sum_members [] = 0
sum_members (m ∷ ms) = m.info.file_size + sum_members ms

sum_members-append :
    (ms ns : List Member) → sum_members (ms ++ ns) ≡ sum_members ms + sum_members ns
unfolding sum_members
sum_members-append [] ns = omega arith
sum_members-append (m ∷ ms) ns = omega (arith, sum_members-append ms ns)

sum_members_nil : sum_members [] ≡ 0
unfolding sum_members
sum_members_nil = refl

sum_members_one : (m : Member) → sum_members (m ∷ []) ≡ m.info.file_size
unfolding sum_members
sum_members_one m = omega arith

-- From a state with `room` bytes left to a result: no more bytes than there was room for, no more
-- entries than the limit, each member counted once, and the rest of the budget left alone.
record Keeps (room : ℕ) (inv : Inventory) (budget : UnpackBudget) (r : Inventory × UnpackBudget)
    : Type 0 where
  pub bytes : sum_members r.0.members ≤ sum_members inv.members + room
  pub entries : r.1.entries ≤ max_archive_entries
  pub counted : length r.0.members + budget.entries ≡ length inv.members + r.1.entries
  pub declared : r.1.declared ≡ budget.declared
  pub unpacked : r.1.unpacked ≡ budget.unpacked
  pub root_size : r.1.root_size ≡ budget.root_size

-- The reasons for leaving something out play no part.
Keeps-members :
    {room : ℕ} {inv inv' : Inventory} {budget : UnpackBudget} {r : Inventory × UnpackBudget}
    → inv'.members ≡ inv.members
    → Keeps room inv' budget r
    → Keeps room inv budget r
Keeps-members e k = ground arith

Keeps-taken :
    (room : ℕ) (inv : Inventory) (budget : UnpackBudget) (m : Member) {r : Inventory × UnpackBudget}
    → m.info.file_size ≤ room
    → Keeps
        (room - m.info.file_size)
        (record inv { members = inv.members ++ m ∷ [] })
        (record budget { entries = budget.entries + 1 })
        r
    → Keeps room inv budget r
Keeps-taken room inv budget m fits k = ground (
  arith,
  sum_members-append inv.members (m ∷ []),
  sum_members_one m,
  length-append inv.members (m ∷ []),
)

collect_members-Keeps :
    (index : ℕ) (files : List ZipInfo) (room : ℕ) (inv : Inventory) (budget : UnpackBudget)
    → budget.entries ≤ max_archive_entries
    → Keeps room inv budget (collect_members index files room inv budget)
unfolding collect_members
collect_members-Keeps index [] room inv budget h = ground arith
collect_members-Keeps index (info ∷ files) room inv budget h =
    elim (Choice-cases (choose info budget room)) [
      | inl e ↦ rw (e, collect_members) (collect_members-Keeps (suc index) files room inv budget h)
      | inr (inl e) ↦ rw (e, collect_members) (ground arith)
      | inr (inr (inl (reason, e))) ↦
          rw (e, collect_members)
            (Keeps-members refl (
              collect_members-Keeps (suc index) files room
                (record inv { incomplete = inv.incomplete ++ reason ∷ [] }) budget h))
      | inr (inr (inr e)) ↦
          rw (e, collect_members)
            (Keeps-taken room inv budget (record { index = index; info = info })
              (choose-take info budget room e).0
              (collect_members-Keeps (suc index) files (room - info.file_size)
                (record inv { members = inv.members ++ record { index = index; info = info } ∷ [] })
                (record budget { entries = budget.entries + 1 })
                (omega (arith, (choose-take info budget room e).2))))
    ]

members-problem :
    (code detail : String) (inv : Inventory) → (problem code detail inv).members ≡ inv.members
unfolding problem
members-problem code detail inv = ground arith

members-problem_if :
    (test : Bool) (code detail : String) (inv : Inventory)
    → (problem_if test code detail inv).members ≡ inv.members
unfolding problem_if
members-problem_if true code detail inv = members-problem code detail inv
members-problem_if false code detail inv = refl

members-note_locked :
    (info : ZipInfo) (inv : Inventory) → (note_locked info inv).members ≡ inv.members
unfolding note_locked
members-note_locked info inv = ground arith

module _ (extension : String → Option String) (human : ℕ → String) where
  members-look_at :
      (index : ℕ) (info : ZipInfo) (inv : Inventory)
      → (look_at extension human index info inv).members ≡ inv.members
  unfolding look_at
  members-look_at index info inv = simp (members-note_locked, members-problem_if)

  members-look_over :
      (index : ℕ) (files : List ZipInfo) (inv : Inventory)
      → (look_over extension human index files inv).members ≡ inv.members
  unfolding look_over
  members-look_over index [] inv = refl
  members-look_over index (info ∷ files) inv =
      members-look_over (suc index) files (look_at extension human index info inv)
      ∙ members-look_at index info inv

  members-listed : (files : List ZipInfo) → (listed extension human files).members ≡ []
  unfolding listed
  members-listed files = members-problem_if _ _ _ _ ∙ members-look_over 1 files empty_inventory

  members-note_volume :
      (budget : UnpackBudget) (inv : Inventory)
      → (note_volume extension human budget inv).members ≡ inv.members
  unfolding note_volume
  members-note_volume budget inv = ground arith

  members-note_bomb :
      (budget : UnpackBudget) (inv : Inventory)
      → (note_bomb extension human budget inv).members ≡ inv.members
  unfolding note_bomb
  members-note_bomb budget inv = members-problem _ _ _

  settle-Keeps :
      (files : List ZipInfo) (room : ℕ) (inv : Inventory) (budget : UnpackBudget) (depth : ℕ)
      (collect : Bool)
      → budget.entries ≤ max_archive_entries
      → Keeps room inv budget (settle extension human files room inv budget depth collect)
  unfolding settle
  settle-Keeps files room inv budget depth collect h =
      let sized = note_volume extension human budget inv in
      let rest : Keeps room inv budget (collect_members 1 files room sized budget) =
        Keeps-members (members-note_volume budget inv)
          (collect_members-Keeps 1 files room sized budget h) in
      ground (arith, members-note_volume budget inv, members-note_bomb budget inv, rest)

  -- What `inspect` hands on for checking fits into what the archives before it have left of the
  -- budget, the number of entries in the whole tree stays within its limit, and each entry that is
  -- handed on is counted.
  pub inspect-bounds :
      (files : List ZipInfo) (budget : UnpackBudget) (depth : ℕ) (collect : Bool)
      → budget.entries ≤ max_archive_entries
      → let (inv, budget') = inspect extension human files budget depth collect in
        (sum_members inv.members ≤ max_unpacked_bytes - budget.declared)
        × (budget'.entries ≤ max_archive_entries)
        × (length inv.members + budget.entries ≡ budget'.entries)
        × (budget'.declared ≡ budget.declared + sum_sizes files)
  unfolding inspect
  inspect-bounds files budget depth collect h = ground (
    arith,
    members-listed files,
    sum_members_nil,
    settle-Keeps files (max_unpacked_bytes - budget.declared) (listed extension human files)
        (record budget { declared = budget.declared + sum_sizes files }) depth collect h,
  )
