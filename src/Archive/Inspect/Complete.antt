-- ===== src/Archive/Inspect/Complete.antt =====
-- What an inventory without reservations means (`inspect` of
-- services/worker/worker_app/archive.py): every entry with something in it to check is handed on.
use mathlib.Core.Bool.{true≢false}
use vulnscan.Base.{
  ℕ, suc, ◌+◌, ◌-◌, String, true, false, List, [], ◌∷◌, ◌++◌, Option, ltb, ◌≡◌, ◌≢◌, ◌∙◌, sym,
  subst, ◌⊎◌, inl, inr, refl, arith, Bool-cases,
}
use vulnscan.Archive.Model.{
  ZipInfo, is_locked, Member, Inventory, UnpackBudget, max_unpacked_bytes, max_archive_depth,
}
use vulnscan.Archive.Inspect.{
  skip, stop, refuse, take, choose, is_symlink, is_os_metadata, collect_members, note_volume,
  note_bomb, is_bomb, settle, inspect, listed, sum_sizes,
}
use vulnscan.Archive.Inspect.Choices.{Choice-cases, choose-skip}

abbrev pub All {ℓ κ} : {A : Type ℓ} → (A → Type κ) → List A → Type κ
All P [] = Unit
All P (x ∷ xs) = P x × All P xs

-- The entry is among the members.
abbrev pub IsMember : ZipInfo → List Member → Type 0
IsMember info [] = ⊥
IsMember info (m ∷ ms) = (m.info ≡ info) ⊎ IsMember info ms

-- The entry is handed on, or it is one of those that need no check of their own.
abbrev pub IsCovered : List Member → ZipInfo → Type 0
IsCovered ms info =
    ((is_locked info ≡ true)
      ⊎ ((is_symlink info ≡ true) ⊎ ((is_os_metadata info ≡ true) ⊎ (info.file_size ≡ 0))))
    ⊎ IsMember info ms

IsMember-append_left :
    (info : ZipInfo) (ms ns : List Member) → IsMember info ms → IsMember info (ms ++ ns)
IsMember-append_left info [] ns h = elim h [ ]
IsMember-append_left info (m ∷ ms) ns (inl e) = inl e
IsMember-append_left info (m ∷ ms) ns (inr h) = inr (IsMember-append_left info ms ns h)

IsMember-append_last : (m : Member) (ms : List Member) → IsMember m.info (ms ++ m ∷ [])
IsMember-append_last m [] = inl refl
IsMember-append_last m (n ∷ ms) = inr (IsMember-append_last m ms)

append_ne_nil : (reasons : List String) (reason : String) → reasons ++ reason ∷ [] ≢ []
append_ne_nil [] reason e = cc
append_ne_nil (r ∷ reasons) reason e = cc

-- The second loop only adds: members stay, and so do reservations.
record Grows (inv inv' : Inventory) : Type 0 where
  members : (info : ZipInfo) → IsMember info inv.members → IsMember info inv'.members
  incomplete : inv'.incomplete ≡ [] → inv.incomplete ≡ []

collect_members-Grows :
    (index : ℕ) (files : List ZipInfo) (room : ℕ) (inv : Inventory) (budget : UnpackBudget)
    → Grows inv (collect_members index files room inv budget).0
unfolding collect_members
collect_members-Grows index [] room inv budget = record {
  members = λ info h. h;
  incomplete = λ e. e;
}
collect_members-Grows index (info ∷ files) room inv budget =
    elim (Choice-cases (choose info budget room)) [
      | inl e ↦ rw (e, collect_members) (collect_members-Grows (suc index) files room inv budget)
      | inr (inl e) ↦
          rw (e, collect_members)
            (record {
              members = λ i h. h;
              incomplete = λ full. absurd (append_ne_nil inv.incomplete _ full);
            })
      | inr (inr (inl (reason, e))) ↦
          rw (e, collect_members)
            (let rest =
                collect_members-Grows (suc index) files room
                  (record inv { incomplete = inv.incomplete ++ reason ∷ [] }) budget in
              record {
                members = rest.members;
                incomplete =
                    λ full. absurd (append_ne_nil inv.incomplete reason (rest.incomplete full));
              })
      | inr (inr (inr e)) ↦
          rw (e, collect_members)
            (let m : Member = record { index = index; info = info } in
              let rest =
                collect_members-Grows (suc index) files (room - info.file_size)
                  (record inv { members = inv.members ++ m ∷ [] })
                  (record budget { entries = budget.entries + 1 }) in
              record {
                members = λ i h. rest.members i (IsMember-append_left i inv.members (m ∷ []) h);
                incomplete = rest.incomplete;
              })
    ]

-- The four ways that a round goes, as equations.
module _ (index : ℕ) (info : ZipInfo) (files : List ZipInfo) (room : ℕ) (inv : Inventory)
    (budget : UnpackBudget) where
  collect_members-skip :
      choose info budget room ≡ skip
      → collect_members index (info ∷ files) room inv budget
        ≡ collect_members (suc index) files room inv budget
  unfolding collect_members
  collect_members-skip e = rw (e, collect_members)

  collect_members-stop :
      choose info budget room ≡ stop
      → (collect_members index (info ∷ files) room inv budget).0.incomplete ≢ []
  unfolding collect_members
  collect_members-stop e full = append_ne_nil inv.incomplete _ (rw (e, collect_members) at full)

  collect_members-refuse :
      (reason : String)
      → choose info budget room ≡ refuse reason
      → (collect_members index (info ∷ files) room inv budget).0.incomplete ≢ []
  unfolding collect_members
  collect_members-refuse reason e full = append_ne_nil inv.incomplete reason (
      (collect_members-Grows (suc index) files room
          (record inv { incomplete = inv.incomplete ++ reason ∷ [] }) budget).incomplete
        (rw (e, collect_members) at full))

  abbrev taken : Member
  taken = record { index = index; info = info }

  abbrev with_member : Inventory
  with_member = record inv { members = inv.members ++ taken ∷ [] }

  abbrev with_entry : UnpackBudget
  with_entry = record budget { entries = budget.entries + 1 }

  collect_members-take :
      choose info budget room ≡ take
      → collect_members index (info ∷ files) room inv budget
        ≡ collect_members (suc index) files (room - info.file_size) with_member with_entry
  unfolding collect_members
  collect_members-take e = rw (e, collect_members)

  IsMember-taken :
      IsMember info
        (collect_members (suc index) files (room - info.file_size) with_member with_entry).0.members
  IsMember-taken =
      (collect_members-Grows (suc index) files (room - info.file_size) with_member
          with_entry).members
        info (IsMember-append_last taken inv.members)

-- A result without reservations covers the files.
abbrev IsHonest : List ZipInfo → Inventory → Type 0
IsHonest files inv = inv.incomplete ≡ [] → All (IsCovered inv.members) files

collect_members-IsHonest :
    (index : ℕ) (files : List ZipInfo) (room : ℕ) (inv : Inventory) (budget : UnpackBudget)
    → IsHonest files (collect_members index files room inv budget).0
collect_members-IsHonest index [] room inv budget = λ full. tt
collect_members-IsHonest index (info ∷ files) room inv budget =
    elim (Choice-cases (choose info budget room)) [
      | inl e ↦
          subst (λ r. IsHonest (info ∷ files) r.0)
            (sym (collect_members-skip index info files room inv budget e))
            (λ full. (
              inl (choose-skip info budget room e),
              collect_members-IsHonest (suc index) files room inv budget full,
            ))
      | inr (inl e) ↦ λ full. absurd (collect_members-stop index info files room inv budget e full)
      | inr (inr (inl (reason, e))) ↦
          λ full. absurd (collect_members-refuse index info files room inv budget reason e full)
      | inr (inr (inr e)) ↦
          let inv' : Inventory = with_member index info files room inv budget in
          let budget' : UnpackBudget = with_entry index info files room inv budget in
          subst (λ r. IsHonest (info ∷ files) r.0)
            (sym (collect_members-take index info files room inv budget e))
            (λ full. (
              inr (IsMember-taken index info files room inv budget),
              collect_members-IsHonest (suc index) files (room - info.file_size) inv' budget' full,
            ))
    ]

module _ (extension : String → Option String) (human : ℕ → String) where
  module _ (files : List ZipInfo) (room : ℕ) (inv : Inventory) (budget : UnpackBudget)
      (depth : ℕ) where
    settle-bomb :
        is_bomb budget ≡ true
        → (settle extension human files room inv budget depth true).0.bomb ≡ true
    unfolding settle note_bomb
    settle-bomb e = ground arith

    settle-deep :
        is_bomb budget ≡ false
        → ltb max_archive_depth depth ≡ true
        → (settle extension human files room inv budget depth true).0.incomplete ≢ []
    unfolding settle
    settle-deep e deep full =
        append_ne_nil (note_volume extension human budget inv).incomplete _ (rw (e, deep) at full)

    settle-collect :
        is_bomb budget ≡ false
        → ltb max_archive_depth depth ≡ false
        → settle extension human files room inv budget depth true
          ≡ collect_members 1 files room (note_volume extension human budget inv) budget
    unfolding settle
    settle-collect e deep = rw (e, deep)

    settle-IsHonest :
        (settle extension human files room inv budget depth true).0.bomb ≡ false
        → IsHonest files (settle extension human files room inv budget depth true).0
    settle-IsHonest safe = elim (Bool-cases (is_bomb budget)) [
      | inl e ↦ absurd (true≢false (sym (settle-bomb e) ∙ safe))
      | inr e ↦ elim (Bool-cases (ltb max_archive_depth depth)) [
        | inl deep ↦ λ full. absurd (settle-deep e deep full)
        | inr shallow ↦
            subst (λ r. IsHonest files r.0) (sym (settle-collect e shallow))
              (collect_members-IsHonest 1 files room (note_volume extension human budget inv)
                budget)
      ]
    ]

  -- An archive that is no bomb and is listed without reservations is covered: every entry that is
  -- not locked, no link, no metadata of an archiver and not empty is handed on for checking.
  pub inspect-IsCovered :
      (files : List ZipInfo) (budget : UnpackBudget) (depth : ℕ)
      → (inspect extension human files budget depth true).0.bomb ≡ false
      → (inspect extension human files budget depth true).0.incomplete ≡ []
      → All (IsCovered (inspect extension human files budget depth true).0.members) files
  unfolding inspect
  inspect-IsCovered files budget depth =
      settle-IsHonest files (max_unpacked_bytes - budget.declared) (listed extension human files)
        (record budget { declared = budget.declared + sum_sizes files }) depth
