-- ===== src/Archive/Tests.antt =====
-- Runs of the archive module (services/worker/worker_app/archive.py) on small inputs, and each
-- theorem at an input that meets its hypotheses.
use Prim.Native.Char.{Char, code}
use vulnscan.Base.{
  ℕ, ◌+◌, ◌-◌, ◌≤◌, String, Bool, true, ◌&&◌, ◌||◌, Option, none, some, List, [], ◌∷◌, ◌≡◌, ◌≢◌,
  ◌⊎◌, refl, arith, length, any, ltb, leb, ◌==◌, str_eq, if◌then◌else◌,
}
use vulnscan.Archive.Model.{
  ZipInfo, is_locked, UnpackBudget, max_unpacked_bytes, max_archive_entries, chunk,
}
use vulnscan.Archive.Names.{
  to_posix, split, join, take, escapes_root, has_drive, decimal, keep_printable, strip_left,
  strip_right, cleaned, safe_parts, safe_name,
}
use vulnscan.Archive.Names.Escapes.{escapes_root-safe_name}
use vulnscan.Archive.Names.Drive.{safe_name-drive}
use vulnscan.Archive.Inspect.{
  is_symlink, is_os_metadata, choose, sum_sizes, problem, problem_if, note_locked, look_at,
  look_over, label, listed, note_volume, note_bomb, is_bomb, settle, collect_members, inspect,
}
use vulnscan.Archive.Inspect.Bounds.{sum_members, inspect-bounds}
use vulnscan.Archive.Inspect.Complete.{All, IsCovered, inspect-IsCovered}
use vulnscan.Archive.Inspect.Problems.{has_problem, shows, inspect-problems}
use vulnscan.Archive.Extract.{ok, counted, Chunk, extract, extract-bounds}

program : Unit {0}
unfolding to_posix split join take escapes_root decimal keep_printable strip_left strip_right
    cleaned safe_parts safe_name is_symlink is_os_metadata choose sum_sizes problem problem_if
    note_locked look_at look_over label listed note_volume note_bomb is_bomb settle collect_members
    inspect
program = tt

-- ASCII: what is printable, and the space.
abbrev printable : Char → Bool
printable c = leb 32 (code c) && ltb (code c) 127

abbrev space : Char → Bool
space c = code c == 32

safe_name-parent : safe_name printable space "a/../../b.pdf" 1 ≡ "a/b.pdf"
unfolding program
safe_name-parent = refl

safe_name-nothing : safe_name printable space "../.." 7 ≡ "file-7"
unfolding program
safe_name-nothing = refl

safe_name-kept_drive : safe_name printable space "C:evil.pdf" 1 ≡ "C:evil.pdf"
unfolding program
safe_name-kept_drive = refl

escapes_root-safe_name_example :
    escapes_root (safe_name printable space "..\\..\\evil.exe" 3)
    ≡ has_drive (safe_name printable space "..\\..\\evil.exe" 3)
escapes_root-safe_name_example = escapes_root-safe_name printable space "..\\..\\evil.exe" 3

safe_name-drive_example : escapes_root (safe_name printable space "C:evil.pdf" 1) ≡ true
safe_name-drive_example = safe_name-drive printable space "C" "e" "vil.pdf" 1 refl refl

abbrev plain : String → ℕ → ZipInfo
plain name size = record {
  filename = name;
  file_size = size;
  flag_bits = 0;
  compress_type = 8;
  create_system = 0;
  external_attr = 0;
}

abbrev fresh : UnpackBudget
fresh = record { root_size = 1000; declared = 0; unpacked = 0; entries = 0 }

abbrev exe_or_pdf : String → Option String
exe_or_pdf name = if str_eq name "run.exe" then some ".exe" else some ".pdf"

abbrev kilo : ℕ → String
kilo n = decimal n

abbrev archive : List ZipInfo
archive = plain "a.pdf" 100 ∷ plain "run.exe" 200 ∷ record (plain "b.pdf" 50) { flag_bits = 1 } ∷ []

inspect-bounds_example :
    let (inv, budget) = inspect exe_or_pdf kilo archive fresh 0 true in
    (sum_members inv.members ≤ max_unpacked_bytes - 0)
    × (budget.entries ≤ max_archive_entries)
    × (length inv.members + 0 ≡ budget.entries)
    × (budget.declared ≡ 0 + sum_sizes archive)
inspect-bounds_example = inspect-bounds exe_or_pdf kilo archive fresh 0 true (omega arith)

inspect-IsCovered_example :
    All (IsCovered (inspect exe_or_pdf kilo archive fresh 0 true).0.members) archive
unfolding program
inspect-IsCovered_example = inspect-IsCovered exe_or_pdf kilo archive fresh 0 refl refl

inspect-problems_example :
    let inv = (inspect exe_or_pdf kilo archive fresh 0 true).0 in
    (has_problem "ARCHIVE_EXECUTABLE" inv ≡ (
      any (shows exe_or_pdf kilo "ARCHIVE_EXECUTABLE") archive
      || ((any is_locked archive && str_eq "ARCHIVE_ENCRYPTED" "ARCHIVE_EXECUTABLE")
          || (inv.bomb && str_eq "ARCHIVE_BOMB" "ARCHIVE_EXECUTABLE"))))
    × (inv.encrypted ≡ any is_locked archive)
inspect-problems_example =
    inspect-problems exe_or_pdf kilo archive fresh 0 true "ARCHIVE_EXECUTABLE"

abbrev block : ℕ → Chunk
block n = record { size = n; write_error = none }

-- An entry that declares 50 bytes and yields 80.
extract-bounds_example :
    let r = extract (counted none) none (block 30 ∷ block 50 ∷ []) none (plain "a.pdf" 50) fresh in
    (r.on_disk ≤ 50)
    × (0 + r.on_disk ≤ max_unpacked_bytes)
    × (r.budget.unpacked ≤ 0 + r.on_disk + chunk)
    × ((r.outcome ≢ ok) ⊎ (r.budget.unpacked ≡ 0 + r.on_disk))
extract-bounds_example =
    extract-bounds (counted none) none (block 30 ∷ block 50 ∷ []) none (plain "a.pdf" 50) fresh
      (omega arith) (omega arith)
