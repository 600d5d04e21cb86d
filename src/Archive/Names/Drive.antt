-- ===== src/Archive/Names/Drive.antt =====
-- A name that begins with a drive, as `safe_name` (services/worker/worker_app/archive.py) leaves it.
use Prim.Native.Char.{Char}
use text.Mathlib.TextLemmas.{cons≢nil, tail-eq_of_cons-eq}
use vulnscan.Base.{ℕ, String, Bool, true, false, not, ◌&&◌, [], ◌∷◌, eq_iff, ◌≡◌, refl, ◌∙◌, arith}
use vulnscan.Archive.Names.{
  to_posix, split, join, take, all_chars, keep_printable, strip_left, strip_right, cleaned,
  safe_parts, safe_name, escapes_root, has_drive, is_dropped,
}
use vulnscan.Archive.Names.Chars.{is_part_char, part-is_plain, split_part, to_posix_of_plain}
use vulnscan.Archive.Names.Escapes.{escapes_root-safe_name}

module _ (is_printable is_space : Char → Bool) where
  abbrev pub is_kept : Char → Bool
  is_kept c = is_printable c && not (is_space c)

  keep_printable_kept :
      (s : String) → all_chars is_kept s ≡ true → keep_printable is_printable is_space s ≡ s
  unfolding keep_printable
  keep_printable_kept String.[] h = refl
  keep_printable_kept (String.◌∷◌ c s) h = ground (arith, keep_printable_kept s)

  strip_left_kept :
      (s : String) → all_chars is_kept s ≡ true → strip_left is_printable is_space s ≡ s
  unfolding strip_left
  strip_left_kept String.[] h = refl
  strip_left_kept (String.◌∷◌ c s) h = ground arith

  strip_right_kept :
      (s : String) → all_chars is_kept s ≡ true → strip_right is_printable is_space s ≡ s
  unfolding strip_right
  strip_right_kept String.[] h = refl
  strip_right_kept (String.◌∷◌ c s) h = ground (arith, strip_right_kept s)

  cleaned_kept : (s : String) → all_chars is_kept s ≡ true → cleaned is_printable is_space s ≡ s
  unfolding cleaned
  cleaned_kept s h = rw (keep_printable_kept s h, strip_left_kept s h, strip_right_kept s h)

  module _ (c d : Char) (s : String) where
    abbrev pub drive_path : String
    drive_path = String.◌∷◌ c (String.◌∷◌ ":" (String.◌∷◌ d s))

    drive_path_kept : is_dropped is_printable is_space drive_path ≡ false
    drive_path_kept = ground (
      arith,
      eq_iff drive_path "",
      eq_iff drive_path ".",
      eq_iff drive_path "..",
      λ (e : drive_path ≡ ""). cons≢nil e,
      λ (e : drive_path ≡ "."). cons≢nil (tail-eq_of_cons-eq e),
      λ (e : drive_path ≡ ".."). cons≢nil (tail-eq_of_cons-eq (tail-eq_of_cons-eq e)),
    )

    safe_parts_drive :
        all_chars is_kept drive_path ≡ true
        → all_chars is_part_char drive_path ≡ true
        → safe_parts is_printable is_space (split (to_posix drive_path)) ≡ take 128 drive_path ∷ []
    safe_parts_drive k a =
        rw (to_posix_of_plain drive_path (part-is_plain drive_path a), split_part drive_path a)
          (unfold safe_parts in rw (cleaned_kept drive_path k, drive_path_kept) refl)

    has_drive-safe_name :
        (index : ℕ)
        → all_chars is_kept drive_path ≡ true
        → all_chars is_part_char drive_path ≡ true
        → has_drive (safe_name is_printable is_space drive_path index) ≡ true
    has_drive-safe_name index k a =
        let e = safe_parts_drive k a in unfold safe_name join take in rw e refl

    -- A name of printable characters that are no spaces and no separators, and that begins with a
    -- letter, a colon and something more, comes out of the sanitizer as a path that the inventory
    -- reports as leading out of the archive.
    pub safe_name-drive :
        (index : ℕ)
        → all_chars is_kept drive_path ≡ true
        → all_chars is_part_char drive_path ≡ true
        → escapes_root (safe_name is_printable is_space drive_path index) ≡ true
    safe_name-drive index k a =
        escapes_root-safe_name is_printable is_space drive_path index
        ∙ has_drive-safe_name index k a
