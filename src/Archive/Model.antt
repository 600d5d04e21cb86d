-- ===== src/Archive/Model.antt =====
-- The data of the archive module (services/worker/worker_app/archive.py) and the limits that it
-- reads (packages/vscommon/limits.py). Names are texts; `infolist` and the sizes that the entries
-- declare come from the archive.
use vulnscan.Base.{ℕ, ◌*◌, ◌%◌, String, Bool, List, ◌==◌}

abbrev pub max_upload_bytes : ℕ
max_upload_bytes = 64 * 1024 * 1024

abbrev pub max_unpacked_bytes : ℕ
max_unpacked_bytes = 256 * 1024 * 1024

abbrev pub max_archive_member_bytes : ℕ
max_archive_member_bytes = max_upload_bytes

abbrev pub max_archive_entries : ℕ
max_archive_entries = 500

abbrev pub max_archive_depth : ℕ
max_archive_depth = 4

abbrev pub archive_bomb_ratio : ℕ
archive_bomb_ratio = 100

abbrev pub chunk : ℕ
chunk = 1024 * 1024

abbrev pub max_central_entries : ℕ
max_central_entries = 20 * max_archive_entries

-- `zipfile.ZipInfo`: an entry as the central directory describes it.
pub record ZipInfo : Type 0 where
  pub filename : String
  pub file_size : ℕ
  pub flag_bits : ℕ
  pub compress_type : ℕ
  pub create_system : ℕ
  pub external_attr : ℕ

-- `info.flag_bits & 0x1`
abbrev pub is_locked : ZipInfo → Bool
is_locked info = info.flag_bits % 2 == 1

-- The deadline is not kept: whether it has passed is asked of the clock.
pub record UnpackBudget : Type 0 where
  pub root_size : ℕ
  pub declared : ℕ
  pub unpacked : ℕ
  pub entries : ℕ

pub record Member : Type 0 where
  pub index : ℕ
  pub info : ZipInfo

pub record Inventory : Type 0 where
  pub members : List Member
  pub problems : List (String × String)
  pub encrypted : Bool
  pub incomplete : List String
  pub bomb : Bool
