-- ===== src/Archive/Extract.antt =====
-- Opening an archive and extracting one entry (`open_archive` and `extract` of
-- services/worker/worker_app/archive.py). What the file and `zipfile` do comes in as their outcomes: the
-- end record, whether the archive opens, the blocks that reading an entry yields with how the writing
-- of each ends, and how the reading ends.
use vulnscan.Base.{
  ℕ, ◌+◌, ◌≤◌, Bool, true, false, ◌||◌, ◌&&◌, Option, none, some, List, [], ◌∷◌, ltb, if◌then◌else◌,
  ◌≡◌, ◌≢◌, ◌⊎◌, inr, arith, refl,
}
use vulnscan.Archive.Model.{ZipInfo, UnpackBudget, chunk, max_unpacked_bytes, max_central_entries}

-- `BudgetExceededError`, and any other `ArchiveError`.
pub data ArchiveError : Type 0 where
  budget_exceeded unreadable : ArchiveError

-- The exceptions that reach this code from outside, by the classes that it tells apart. A
-- `NotImplementedError` is a `RuntimeError`; a damaged BZIP2 stream raises an `OSError`, as a write
-- does that fails, and a damaged LZMA stream raises `lzma.LZMAError`, which is `other_error`.
pub data PyError : Type 0 where
  bad_zip_file large_zip_file os_error value_error runtime_error zlib_error eof_error : PyError
  other_error : PyError

-- The `except` of `open_archive`.
abbrev pub opening_catches : PyError → Bool
opening_catches bad_zip_file = true
opening_catches large_zip_file = true
opening_catches os_error = true
opening_catches value_error = true
opening_catches _ = false

-- The `except` of `extract`.
abbrev pub extract_catches : PyError → Bool
extract_catches bad_zip_file = true
extract_catches runtime_error = true
extract_catches zlib_error = true
extract_catches eof_error = true
extract_catches _ = false

-- A call that ends well, with an `ArchiveError`, or with an exception that is none.
pub data Outcome : Type 0 where
  ok : Outcome
  raised : ArchiveError → Outcome
  thrown : PyError → Outcome

-- What the end record of the file gives: the number of entries, if there is one, or the exception of
-- reading it.
pub data EndRecord : Type 0 where
  counted : Option ℕ → EndRecord
  unread : PyError → EndRecord

-- `zipfile.ZipFile(path)`, by the exception that it raises, with the `except` around it.
unfoldable pub open_zip : Option PyError → Outcome
open_zip none = ok
open_zip (some e) = if opening_catches e then raised unreadable else thrown e

-- `open_archive`. The end record is read outside the `try`.
unfoldable pub open_archive : EndRecord → Option PyError → Outcome
unfolding open_zip
open_archive (unread e) zip = thrown e
open_archive (counted none) zip = open_zip zip
open_archive (counted (some entries)) zip =
    if ltb max_central_entries entries then raised budget_exceeded else open_zip zip

-- An exception that is no `ArchiveError`, at the `except` of `extract`.
abbrev pub convert : PyError → Outcome
convert e = if extract_catches e then raised unreadable else thrown e

-- A block that `src.read` gives, and the exception of writing it, if there is one.
pub record Chunk : Type 0 where
  pub size : ℕ
  pub write_error : Option PyError

-- The loop of `extract`: the blocks that are read, the exception that ends the reading, if there is
-- one, and the bytes counted so far. It returns the count, and the bytes that were written out.
unfoldable pub copy_chunks :
    List Chunk → Option PyError → ZipInfo → UnpackBudget → ℕ → Outcome × ℕ × ℕ
copy_chunks [] none info budget written = (ok, written, written)
copy_chunks [] (some e) info budget written = (convert e, written, written)
copy_chunks (c ∷ cs) end info budget written =
    let rest = copy_chunks cs end info budget (written + c.size) in
    if ltb info.file_size (written + c.size)
      || ltb max_unpacked_bytes (budget.unpacked + (written + c.size))
    then (raised budget_exceeded, written + c.size, written)
    else elim c.write_error [ none ↦ rest | some e ↦ (convert e, written + c.size, written) ]

pub record Extraction : Type 0 where
  pub outcome : Outcome
  pub budget : UnpackBudget
  pub on_disk : ℕ

abbrev finish : UnpackBudget → Outcome × ℕ × ℕ → Extraction
finish budget (o, written, stored) = record {
  outcome = o;
  budget = record budget { unpacked = budget.unpacked + written };
  on_disk = stored;
}

-- `extract`: the count goes to the budget on every path.
unfoldable pub extract :
    EndRecord → Option PyError → List Chunk → Option PyError → ZipInfo → UnpackBudget → Extraction
extract entries zip chunks end info budget = elim (open_archive entries zip) [
  | ok ↦ finish budget (copy_chunks chunks end info budget 0)
  | raised e ↦ finish budget (raised e, 0, 0)
  | thrown e ↦ finish budget (convert e, 0, 0)
]

abbrev AllChunks : List Chunk → Type 0
AllChunks [] = Unit
AllChunks (c ∷ cs) = (c.size ≤ chunk) × AllChunks cs

-- What the loop keeps: nothing is stored beyond the declared size or the budget, the count is at
-- most a chunk ahead of what is stored, and a copy that ends well stored all that it counted.
record IsBounded (info : ZipInfo) (budget : UnpackBudget) (r : Outcome × ℕ × ℕ) : Type 0 where
  pub declared : r.2 ≤ info.file_size
  pub within : budget.unpacked + r.2 ≤ max_unpacked_bytes
  pub ahead : r.1 ≤ r.2 + chunk
  pub complete : (r.0 ≢ ok) ⊎ (r.1 ≡ r.2)

-- The exceptions of the parts of an extraction are among those that `extract` turns into an
-- `ArchiveError`.
abbrev is_caught : Option PyError → Bool
is_caught none = true
is_caught (some e) = extract_catches e

abbrev opens_caught : Option PyError → Bool
opens_caught none = true
opens_caught (some e) = opening_catches e || extract_catches e

abbrev record_caught : EndRecord → Bool
record_caught (counted n) = true
record_caught (unread e) = extract_catches e

abbrev all_caught : List Chunk → Bool
all_caught [] = true
all_caught (c ∷ cs) = is_caught c.write_error && all_caught cs

abbrev pub IsCaught : EndRecord → Option PyError → List Chunk → Option PyError → Type 0
IsCaught entries zip chunks end =
    (record_caught entries ≡ true)
    × (opens_caught zip ≡ true)
    × (all_caught chunks ≡ true)
    × (is_caught end ≡ true)

abbrev pub is_thrown : Outcome → Bool
is_thrown (thrown e) = true
is_thrown _ = false

convert-caught : (e : PyError) → extract_catches e ≡ true → is_thrown (convert e) ≡ false
convert-caught e h = rw h refl

copy_chunks-caught :
    (cs : List Chunk) (end : Option PyError) (info : ZipInfo) (budget : UnpackBudget) (written : ℕ)
    → all_caught cs ≡ true
    → is_caught end ≡ true
    → is_thrown (copy_chunks cs end info budget written).0 ≡ false
unfolding copy_chunks
copy_chunks-caught [] none info budget written a h = refl
copy_chunks-caught [] (some e) info budget written a h = convert-caught e h
copy_chunks-caught (c ∷ cs) end info budget written a h =
    ground (arith, copy_chunks-caught cs end info budget (written + c.size))

copy_chunks-IsBounded :
    (cs : List Chunk) (end : Option PyError) (info : ZipInfo) (budget : UnpackBudget) (written : ℕ)
    → AllChunks cs
    → written ≤ info.file_size
    → budget.unpacked + written ≤ max_unpacked_bytes
    → IsBounded info budget (copy_chunks cs end info budget written)
unfolding copy_chunks
copy_chunks-IsBounded [] none info budget written a h k = record {
  declared = h;
  within = k;
  ahead = omega arith;
  complete = inr refl;
}
copy_chunks-IsBounded [] (some e) info budget written a h k = record {
  declared = h;
  within = k;
  ahead = omega arith;
  complete = inr refl;
}
copy_chunks-IsBounded (c ∷ cs) end info budget written a h k =
    ground (arith, copy_chunks-IsBounded cs end info budget (written + c.size) a.1)

-- An extraction whose exceptions are caught ends well or with an `ArchiveError`.
pub extract-caught :
    (entries : EndRecord) (zip : Option PyError) (chunks : List Chunk) (end : Option PyError)
    (info : ZipInfo) (budget : UnpackBudget)
    → IsCaught entries zip chunks end
    → is_thrown (extract entries zip chunks end info budget).outcome ≡ false
unfolding extract open_archive open_zip
extract-caught entries zip chunks end info budget (r, z, a, h) =
    ground (arith, copy_chunks-caught chunks end info budget 0 a h)

-- Where no chunk is longer than the one that is asked for and the budget is not overdrawn, an
-- extraction stores no more than the entry declares and no more than the budget has left, on
-- every path; the budget is charged at most one chunk more than was stored, and exactly what was
-- stored if the entry came out whole.
pub extract-bounds :
    (entries : EndRecord) (zip : Option PyError) (chunks : List Chunk) (end : Option PyError)
    (info : ZipInfo) (budget : UnpackBudget)
    → AllChunks chunks
    → budget.unpacked ≤ max_unpacked_bytes
    → let r = extract entries zip chunks end info budget in
      (r.on_disk ≤ info.file_size)
      × (budget.unpacked + r.on_disk ≤ max_unpacked_bytes)
      × (r.budget.unpacked ≤ budget.unpacked + r.on_disk + chunk)
      × ((r.outcome ≢ ok) ⊎ (r.budget.unpacked ≡ budget.unpacked + r.on_disk))
unfolding extract
extract-bounds entries zip chunks end info budget a h =
    ground (arith, copy_chunks-IsBounded chunks end info budget 0 a)
