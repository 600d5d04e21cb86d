-- ===== src/Archive/Inspect/Problems.antt =====
-- The problems that an inventory reports (`inspect` of services/worker/worker_app/archive.py),
-- against the entries that show them.
use vulnscan.Base.{
  ℕ, suc, ◌+◌, ◌-◌, String, Bool, true, false, ◌&&◌, ◌||◌, List, [], ◌∷◌, ◌++◌, any, any-append,
  Option, ◌≡◌, ◌∙◌, ap, inl, inr, refl, arith, str_eq, eq_iff,
}
use vulnscan.Archive.Model.{ZipInfo, is_locked, Member, Inventory, UnpackBudget, max_unpacked_bytes}
use vulnscan.Archive.Names.{escapes_root}
use vulnscan.Archive.Inspect.{
  choose, is_symlink, is_executable, collect_members, note_volume, note_bomb, settle, inspect,
  listed, sum_sizes, problem, problem_if, note_locked, look_at, look_over, is_bomb, bomb_detail,
}
use vulnscan.Archive.Inspect.Choices.{Choice-cases}

-- A problem of the given kind is reported.
abbrev pub has_problem : String → Inventory → Bool
has_problem code inv = any (λ (p : String × String). str_eq p.0 code) inv.problems

has_problem-problem :
    (code other detail : String) (inv : Inventory)
    → has_problem code (problem other detail inv) ≡ (has_problem code inv || str_eq other code)
unfolding problem
has_problem-problem code other detail inv = ground (
  arith,
  any-append (λ (p : String × String). str_eq p.0 code) inv.problems ((other, detail) ∷ []),
  eq_iff other code,
)

has_problem-problem_if :
    (code : String) (test : Bool) (other detail : String) (inv : Inventory)
    → has_problem code (problem_if test other detail inv)
      ≡ (has_problem code inv || (test && str_eq other code))
unfolding problem_if
has_problem-problem_if code true other detail inv = has_problem-problem code other detail inv
has_problem-problem_if code false other detail inv = ground arith

encrypted-problem :
    (code detail : String) (inv : Inventory) → (problem code detail inv).encrypted ≡ inv.encrypted
unfolding problem
encrypted-problem code detail inv = ground arith

encrypted-problem_if :
    (test : Bool) (code detail : String) (inv : Inventory)
    → (problem_if test code detail inv).encrypted ≡ inv.encrypted
unfolding problem_if
encrypted-problem_if true code detail inv = encrypted-problem code detail inv
encrypted-problem_if false code detail inv = refl

or_false : (a : Bool) → a ≡ (a || false)
or_false a = ground arith

or_assoc : (a b c : Bool) → ((a || b) || c) ≡ (a || (b || c))
or_assoc a b c = ground arith

or_assoc₃ : (a b c d : Bool) → (((a || b) || c) || d) ≡ (a || (b || (c || d)))
or_assoc₃ a b c d = ground arith

-- The second loop reports nothing.
module _ {ℓ} {A : Type ℓ} (view : Inventory → A)
    (blind : (inv : Inventory) (ms : List Member) (reasons : List String)
      → view (record inv { members = ms; incomplete = reasons }) ≡ view inv) where
  view-collect_members :
      (index : ℕ) (files : List ZipInfo) (room : ℕ) (inv : Inventory) (budget : UnpackBudget)
      → view (collect_members index files room inv budget).0 ≡ view inv
  unfolding collect_members
  view-collect_members index [] room inv budget = refl
  view-collect_members index (info ∷ files) room inv budget =
      elim (Choice-cases (choose info budget room)) [
        | inl e ↦ rw (e, collect_members) (view-collect_members (suc index) files room inv budget)
        | inr (inl e) ↦ rw (e, collect_members) (blind inv inv.members _)
        | inr (inr (inl (reason, e))) ↦
            rw (e, collect_members)
              (view-collect_members (suc index) files room
                  (record inv { incomplete = inv.incomplete ++ reason ∷ [] }) budget
                ∙ blind inv inv.members (inv.incomplete ++ reason ∷ []))
        | inr (inr (inr e)) ↦
            rw (e, collect_members)
              (view-collect_members (suc index) files (room - info.file_size)
                  (record inv {
                    members = inv.members ++ record { index = index; info = info } ∷ [];
                  })
                  (record budget { entries = budget.entries + 1 })
                ∙ blind inv (inv.members ++ record { index = index; info = info } ∷ [])
                    inv.incomplete)
      ]

has_problem-note_locked :
    (code : String) (info : ZipInfo) (inv : Inventory)
    → has_problem code (note_locked info inv) ≡ has_problem code inv
unfolding note_locked
has_problem-note_locked code info inv = ground arith

encrypted-note_locked :
    (info : ZipInfo) (inv : Inventory)
    → (note_locked info inv).encrypted ≡ (inv.encrypted || is_locked info)
unfolding note_locked
encrypted-note_locked info inv = ground arith

bomb-problem_if :
    (test : Bool) (code detail : String) (inv : Inventory)
    → (problem_if test code detail inv).bomb ≡ inv.bomb
unfolding problem_if problem
bomb-problem_if true code detail inv = ground arith
bomb-problem_if false code detail inv = refl

bomb-note_locked : (info : ZipInfo) (inv : Inventory) → (note_locked info inv).bomb ≡ inv.bomb
unfolding note_locked
bomb-note_locked info inv = ground arith

module _ (extension : String → Option String) (human : ℕ → String) where
  -- An entry that shows a problem of the given kind.
  abbrev pub shows : String → ZipInfo → Bool
  shows code info =
      (escapes_root info.filename && str_eq "ARCHIVE_PATH_TRAVERSAL" code)
      || ((is_symlink info && str_eq "ARCHIVE_SYMLINK" code)
          || (is_executable (extension info.filename) && str_eq "ARCHIVE_EXECUTABLE" code))

  module _ (code : String) where
    has_problem-look_at :
        (index : ℕ) (info : ZipInfo) (inv : Inventory)
        → has_problem code (look_at extension human index info inv)
          ≡ (has_problem code inv || shows code info)
    unfolding look_at
    has_problem-look_at index info inv =
        simp (has_problem-note_locked, has_problem-problem_if)
          (or_assoc₃ (has_problem code inv) _ _ _)

    has_problem-look_over :
        (index : ℕ) (files : List ZipInfo) (inv : Inventory)
        → has_problem code (look_over extension human index files inv)
          ≡ (has_problem code inv || any (shows code) files)
    unfolding look_over
    has_problem-look_over index [] inv = or_false (has_problem code inv)
    has_problem-look_over index (info ∷ files) inv =
        has_problem-look_over (suc index) files (look_at extension human index info inv)
        ∙ ap (λ b. b || any (shows code) files) (has_problem-look_at index info inv)
        ∙ or_assoc (has_problem code inv) (shows code info) (any (shows code) files)

  encrypted-look_at :
      (index : ℕ) (info : ZipInfo) (inv : Inventory)
      → (look_at extension human index info inv).encrypted ≡ (inv.encrypted || is_locked info)
  unfolding look_at
  encrypted-look_at index info inv = simp (encrypted-note_locked, encrypted-problem_if)

  encrypted-look_over :
      (index : ℕ) (files : List ZipInfo) (inv : Inventory)
      → (look_over extension human index files inv).encrypted
        ≡ (inv.encrypted || any is_locked files)
  unfolding look_over
  encrypted-look_over index [] inv = or_false inv.encrypted
  encrypted-look_over index (info ∷ files) inv =
      encrypted-look_over (suc index) files (look_at extension human index info inv)
      ∙ ap (λ b. b || any is_locked files) (encrypted-look_at index info inv)
      ∙ or_assoc inv.encrypted (is_locked info) (any is_locked files)

  bomb-look_over :
      (index : ℕ) (files : List ZipInfo) (inv : Inventory)
      → (look_over extension human index files inv).bomb ≡ inv.bomb
  unfolding look_over look_at
  bomb-look_over index [] inv = refl
  bomb-look_over index (info ∷ files) inv =
      bomb-look_over (suc index) files (look_at extension human index info inv)
      ∙ simp (bomb-note_locked, bomb-problem_if)

  has_problem-listed :
      (code : String) (files : List ZipInfo)
      → has_problem code (listed extension human files)
        ≡ (any (shows code) files || (any is_locked files && str_eq "ARCHIVE_ENCRYPTED" code))
  unfolding listed
  has_problem-listed code files =
      simp (has_problem-problem_if, has_problem-look_over, encrypted-look_over)

  encrypted-listed :
      (files : List ZipInfo) → (listed extension human files).encrypted ≡ any is_locked files
  unfolding listed
  encrypted-listed files = simp (encrypted-problem_if, encrypted-look_over)

  bomb-listed : (files : List ZipInfo) → (listed extension human files).bomb ≡ false
  unfolding listed
  bomb-listed files = simp (bomb-problem_if, bomb-look_over)

  module _ (files : List ZipInfo) (room : ℕ) (inv : Inventory) (budget : UnpackBudget) (depth : ℕ)
      (collect : Bool) where
    abbrev settled : Inventory
    settled = (settle extension human files room inv budget depth collect).0

    has_problem-settle :
        (code : String)
        → has_problem code settled
          ≡ (has_problem code inv || (is_bomb budget && str_eq "ARCHIVE_BOMB" code))
    unfolding settle note_bomb note_volume
    has_problem-settle code = ground (
      arith,
      has_problem-problem code "ARCHIVE_BOMB" (bomb_detail extension human budget) inv,
      view-collect_members (has_problem code) (λ _ _ _. refl) 1 files room
          (note_volume extension human budget inv) budget,
    )

    encrypted-settle : settled.encrypted ≡ inv.encrypted
    unfolding settle note_bomb note_volume
    encrypted-settle = ground (
      arith,
      encrypted-problem "ARCHIVE_BOMB" (bomb_detail extension human budget) inv,
      view-collect_members (λ i. i.encrypted) (λ _ _ _. refl) 1 files room
          (note_volume extension human budget inv) budget,
    )

    bomb-settle : settled.bomb ≡ (inv.bomb || is_bomb budget)
    unfolding settle note_bomb note_volume
    bomb-settle = ground (
      arith,
      view-collect_members (λ i. i.bomb) (λ _ _ _. refl) 1 files room
          (note_volume extension human budget inv) budget,
    )

  -- For every kind of problem: the inventory reports it exactly if some entry shows it, if some
  -- entry is locked (and the kind is that one), or if the archive is a bomb (likewise); and the
  -- archive counts as encrypted exactly if some entry is locked.
  pub inspect-problems :
      (files : List ZipInfo) (budget : UnpackBudget) (depth : ℕ) (collect : Bool) (code : String)
      → let inv = (inspect extension human files budget depth collect).0 in
        (has_problem code inv ≡ (
          any (shows code) files
          || ((any is_locked files && str_eq "ARCHIVE_ENCRYPTED" code)
              || (inv.bomb && str_eq "ARCHIVE_BOMB" code))))
        × (inv.encrypted ≡ any is_locked files)
  unfolding inspect
  inspect-problems files budget depth collect code =
      let room = max_unpacked_bytes - budget.declared in
      let seen = listed extension human files in
      let budget' = record budget { declared = budget.declared + sum_sizes files } in
      ground (
        arith,
        has_problem-settle files room seen budget' depth collect code,
        encrypted-settle files room seen budget' depth collect,
        bomb-settle files room seen budget' depth collect,
        has_problem-listed code files,
        encrypted-listed files,
        bomb-listed files,
      )
