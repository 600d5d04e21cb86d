-- ===== src/Archive/Inspect.antt =====
-- The inventory of an archive (`Inventory` and `inspect` of
-- services/worker/worker_app/archive.py): what is wrong with it, and which entries to check. The files
-- are the entries that `zipfile` lists, without the directories.
use Prim.Native.String.{◌++◌ as append}
use vulnscan.Base.{
  ℕ, zero, suc, ◌+◌, ◌-◌, ◌*◌, ◌/◌, ◌%◌, max, String, Bool, true, false, not, ◌&&◌, ◌||◌, Option,
  none, some, List, [], ◌∷◌, ◌++◌, any, contains, ltb, leb, ◌==◌, if◌then◌else◌, str_eq,
  starts_with,
}
use vulnscan.Archive.Model.{
  ZipInfo, is_locked, UnpackBudget, Member, Inventory, chunk, max_unpacked_bytes,
  max_archive_member_bytes, max_archive_entries, max_archive_depth, archive_bomb_ratio,
}
use vulnscan.Archive.Names.{to_posix, split, escapes_root, decimal}
pub mod Choices
pub mod Bounds
pub mod Complete
pub mod Problems

-- `Inventory()`
abbrev pub empty_inventory : Inventory
empty_inventory = record {
  members = [];
  problems = [];
  encrypted = false;
  incomplete = [];
  bomb = false;
}

-- `Inventory.problem`: one problem of a kind.
unfoldable pub problem : String → String → Inventory → Inventory
problem code detail inv =
    if any (λ (p : String × String). str_eq p.0 code) inv.problems
    then inv
    else record inv { problems = inv.problems ++ (code, detail) ∷ [] }

-- `is_symlink`: made on Unix, with the file type of a link in the upper half of the attributes.
unfoldable pub is_symlink : ZipInfo → Bool
is_symlink info = info.create_system == 3 && info.external_attr / 65536 / 4096 % 16 == 10

abbrev last_part : List String → String
last_part [] = ""
last_part (p ∷ []) = p
last_part (p ∷ q ∷ ps) = last_part (q ∷ ps)

abbrev first_part : List String → String
first_part [] = ""
first_part (p ∷ ps) = p

-- `is_os_metadata`
unfoldable pub is_os_metadata : ZipInfo → Bool
unfolding to_posix split
is_os_metadata info =
    let parts = split (to_posix info.filename) in
    let base = last_part parts in
    if ltb chunk info.file_size
    then false
    else str_eq base ".DS_Store" || (str_eq (first_part parts) "__MACOSX" && starts_with base "._")

-- `info.compress_type in SUPPORTED_METHODS`: stored, deflated, bzip2 and lzma.
abbrev is_supported_method : ℕ → Bool
is_supported_method m = m == 0 || m == 8 || m == 12 || m == 14

-- `EXECUTABLE_NAMES`
abbrev pub executable_names : List String
executable_names =
    ".exe" ∷ ".scr" ∷ ".com" ∷ ".pif" ∷ ".cpl" ∷ ".dll" ∷ ".msi" ∷ ".msp" ∷ ".js" ∷ ".jse" ∷ ".vbs"
    ∷ ".vbe" ∷ ".wsf" ∷ ".wsh" ∷ ".hta" ∷ ".ps1" ∷ ".bat" ∷ ".cmd" ∷ ".lnk" ∷ ".jar" ∷ ".apk"
    ∷ ".reg" ∷ ".sh" ∷ ".iso" ∷ ".img" ∷ ".vhd" ∷ ".vhdx" ∷ []

abbrev is_executable : Option String → Bool
is_executable none = false
is_executable (some ext) = contains ext executable_names

abbrev ext_text : Option String → String
ext_text none = "без расширения"
ext_text (some ext) = ext

unfoldable pub sum_sizes : List ZipInfo → ℕ
sum_sizes [] = 0
sum_sizes (info ∷ files) = info.file_size + sum_sizes files

abbrev add_incomplete : String → Inventory → Inventory
add_incomplete reason inv = record inv { incomplete = inv.incomplete ++ reason ∷ [] }

-- What one round of the second loop does with an entry.
pub data Choice : Type 0 where
  skip stop : Choice
  refuse : String → Choice
  take : Choice

unfoldable pub choose : ZipInfo → UnpackBudget → ℕ → Choice
choose info budget room =
    if is_locked info || is_symlink info || is_os_metadata info
    then skip
    else if info.file_size == 0
    then skip
    else if not (is_supported_method info.compress_type)
    then refuse (append "метод сжатия " (decimal info.compress_type))
    else if ltb max_archive_member_bytes info.file_size || ltb room info.file_size
    then refuse "вложение больше предела"
    else if leb max_archive_entries budget.entries
    then stop
    else take

-- The second loop of `inspect`, from the given index, with the room left in the budget.
unfoldable pub collect_members :
    ℕ → List ZipInfo → ℕ → Inventory → UnpackBudget → Inventory × UnpackBudget
collect_members index [] room inv budget = (inv, budget)
collect_members index (info ∷ files) room inv budget = elim (choose info budget room) [
  | skip ↦ collect_members (suc index) files room inv budget
  | stop ↦ (add_incomplete "больше 500 записей" inv, budget)
  | refuse reason ↦ collect_members (suc index) files room (add_incomplete reason inv) budget
  | take ↦
      collect_members (suc index) files (room - info.file_size)
        (record inv { members = inv.members ++ record { index = index; info = info } ∷ [] })
        (record budget { entries = budget.entries + 1 })
]

-- `budget.declared > MAX_UNPACKED_BYTES` and `budget.ratio >= ARCHIVE_BOMB_RATIO`, without the
-- division.
unfoldable pub is_bomb : UnpackBudget → Bool
is_bomb budget =
    ltb max_unpacked_bytes budget.declared
    && leb (archive_bomb_ratio * max budget.root_size 1) budget.declared

-- `if test: inventory.problem(code, detail)`
unfoldable pub problem_if : Bool → String → String → Inventory → Inventory
problem_if test code detail inv = if test then problem code detail inv else inv

-- `if info.flag_bits & 0x1: inventory.encrypted = True`
unfoldable pub note_locked : ZipInfo → Inventory → Inventory
note_locked info inv = if is_locked info then record inv { encrypted = true } else inv

-- `extension` reads the suffix of a path in lower case, which Python's tables decide; `human`
-- prints a size.
module _ (extension : String → Option String) (human : ℕ → String) where
  -- `f"#{index} ({extension or 'без расширения'})"`
  unfoldable pub label : ℕ → Option String → String
  unfolding decimal
  label index ext = append "#" (append (decimal index) (append " (" (append (ext_text ext) ")")))

  -- One round of the first loop of `inspect`.
  unfoldable pub look_at : ℕ → ZipInfo → Inventory → Inventory
  look_at index info inv =
      let ext = extension info.filename in
      let l = label index ext in
      let inv₁ = problem_if (escapes_root info.filename) "ARCHIVE_PATH_TRAVERSAL" l inv in
      let inv₂ = problem_if (is_symlink info) "ARCHIVE_SYMLINK" l inv₁ in
      let inv₃ = problem_if (is_executable ext) "ARCHIVE_EXECUTABLE" l inv₂ in note_locked info inv₃

  -- The first loop of `inspect`, from the given index.
  unfoldable pub look_over : ℕ → List ZipInfo → Inventory → Inventory
  look_over index [] inv = inv
  look_over index (info ∷ files) inv = look_over (suc index) files (look_at index info inv)

  abbrev bomb_detail : UnpackBudget → String
  bomb_detail budget = append (human budget.declared) (
      append " из " (
        append (human budget.root_size)
          (append ", x" (decimal (budget.declared / max budget.root_size 1)))))

  -- The first loop, and the problem that sums up the locked entries.
  unfoldable pub listed : List ZipInfo → Inventory
  listed files =
      let seen = look_over 1 files empty_inventory in
      problem_if seen.encrypted "ARCHIVE_ENCRYPTED" "записи под паролем" seen

  -- `incomplete.append` for a volume over the budget.
  unfoldable pub note_volume : UnpackBudget → Inventory → Inventory
  note_volume budget inv =
      if ltb max_unpacked_bytes budget.declared
      then add_incomplete (append "объём " (human budget.declared)) inv
      else inv

  unfoldable pub note_bomb : UnpackBudget → Inventory → Inventory
  note_bomb budget inv = record (problem "ARCHIVE_BOMB" (bomb_detail budget) inv) { bomb = true }

  -- What follows the declared sizes: the bomb, the depth, the second loop. `room` is what the
  -- archives before this one have left, and `budget` has the sizes of this one added.
  unfoldable pub settle :
      List ZipInfo → ℕ → Inventory → UnpackBudget → ℕ → Bool → Inventory × UnpackBudget
  settle files room inv budget depth collect =
      let sized = note_volume budget inv in
      if is_bomb budget
      then (note_bomb budget inv, budget)
      else if not collect
      then (sized, budget)
      else if ltb max_archive_depth depth
      then (add_incomplete "вложенность глубже 4" sized, budget)
      else collect_members 1 files room sized budget

  -- `inspect`: `files` are the entries that are no directories.
  unfoldable pub inspect : List ZipInfo → UnpackBudget → ℕ → Bool → Inventory × UnpackBudget
  inspect files budget depth collect =
      settle files (max_unpacked_bytes - budget.declared) (listed files)
        (record budget { declared = budget.declared + sum_sizes files }) depth collect
