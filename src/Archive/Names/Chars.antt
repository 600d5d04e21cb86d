-- ===== src/Archive/Names/Chars.antt =====
-- What the text steps of `safe_name` and `escapes_root` (services/worker/worker_app/archive.py) keep
-- of the characters of a name.
use Prim.Native.Char.{Char, code}
use Prim.Native.String.{◌++◌ as append}
use text.Mathlib.TextLemmas.{cons-append, nil-append}
use vulnscan.Base.{
  ℕ, zero, suc, String, Bool, true, not, ◌&&◌, List, [], ◌∷◌, ◌==◌, ◌≡◌, refl, arith, Bool-cases,
  inl, inr,
}
use vulnscan.Archive.Names.{
  to_posix, split, join, take, all_chars, keep_printable, strip_left, strip_right, cleaned,
  is_slash, slash, push_head,
}

-- Every part of a list of texts is made of such characters.
abbrev pub AllParts : (Char → Bool) → List String → Type 0
AllParts p [] = Unit
AllParts p (s ∷ ss) = (all_chars p s ≡ true) × AllParts p ss

abbrev is_plain : Char → Bool
is_plain c = not (code c == 92)

abbrev pub is_part_char : Char → Bool
is_part_char c = not (code c == 92) && not (is_slash c)

pub to_posix-plain : (s : String) → all_chars is_plain (to_posix s) ≡ true
unfolding to_posix
to_posix-plain String.[] = refl
to_posix-plain (String.◌∷◌ c s) = elim (Bool-cases (code c == 92)) [
  | inl backslash ↦ rw backslash (to_posix-plain s)
  | inr other ↦ rw (other, other) (to_posix-plain s)
]

push_head-AllParts :
    (c : Char) (ps : List String)
    → is_part_char c ≡ true
    → AllParts is_part_char ps
    → AllParts is_part_char (push_head c ps)
push_head-AllParts c [] h a = ground arith
push_head-AllParts c (p ∷ ps) h a = ground arith

pub split-AllParts : (s : String) → all_chars is_plain s ≡ true → AllParts is_part_char (split s)
unfolding split
split-AllParts String.[] h = (refl, tt)
split-AllParts (String.◌∷◌ c s) h = elim (Bool-cases (is_slash c)) [
  | inl sep ↦ rw sep (refl, split-AllParts s (ground arith))
  | inr other ↦
      rw other (push_head-AllParts c (split s) (ground arith) (split-AllParts s (ground arith)))
]

module _ (p : Char → Bool) where
  pub take-all_chars : (n : ℕ) (s : String) → all_chars p s ≡ true → all_chars p (take n s) ≡ true
  unfolding take
  take-all_chars zero s h = refl
  take-all_chars (suc n) String.[] h = refl
  take-all_chars (suc n) (String.◌∷◌ c s) h = ground (arith, take-all_chars n s)

  module _ (is_printable is_space : Char → Bool) where
    keep_printable-all_chars :
        (s : String)
        → all_chars p s ≡ true
        → all_chars p (keep_printable is_printable is_space s) ≡ true
    unfolding keep_printable
    keep_printable-all_chars String.[] h = refl
    keep_printable-all_chars (String.◌∷◌ c s) h = ground (arith, keep_printable-all_chars s)

    strip_left-all_chars :
        (s : String)
        → all_chars p s ≡ true
        → all_chars p (strip_left is_printable is_space s) ≡ true
    unfolding strip_left
    strip_left-all_chars String.[] h = refl
    strip_left-all_chars (String.◌∷◌ c s) h = ground (arith, strip_left-all_chars s)

    strip_right-all_chars :
        (s : String)
        → all_chars p s ≡ true
        → all_chars p (strip_right is_printable is_space s) ≡ true
    unfolding strip_right
    strip_right-all_chars String.[] h = refl
    strip_right-all_chars (String.◌∷◌ c s) h = ground (arith, strip_right-all_chars s)

    pub cleaned-all_chars :
        (s : String) → all_chars p s ≡ true → all_chars p (cleaned is_printable is_space s) ≡ true
    unfolding cleaned
    cleaned-all_chars s h =
        strip_right-all_chars _ (strip_left-all_chars _ (keep_printable-all_chars s h))

-- Splitting undoes joining, for parts with no slash in them.
pub split_part : (s : String) → all_chars is_part_char s ≡ true → split s ≡ s ∷ []
unfolding split
split_part String.[] h = refl
split_part (String.◌∷◌ c s) h = ground (arith, split_part s)

split-append :
    (s t : String)
    → all_chars is_part_char s ≡ true
    → split (append s (String.◌∷◌ slash t)) ≡ s ∷ split t
unfolding split
split-append String.[] t h = rw nil-append
split-append (String.◌∷◌ c s) t h = rw cons-append (ground (arith, split-append s t))

pub split-join :
    (s : String) (ss : List String)
    → AllParts is_part_char (s ∷ ss)
    → split (join (s ∷ ss)) ≡ s ∷ ss
unfolding join
split-join s [] h = split_part s h.0
split-join s (t ∷ ss) h = rw (split-append s (join (t ∷ ss)) h.0, split-join t ss h.1)

-- A joined path has no backslash, so `to_posix` leaves it alone.
pub to_posix_of_plain : (s : String) → all_chars is_plain s ≡ true → to_posix s ≡ s
unfolding to_posix
to_posix_of_plain String.[] h = refl
to_posix_of_plain (String.◌∷◌ c s) h = elim (Bool-cases (code c == 92)) [
  | inl backslash ↦ ground arith
  | inr other ↦ rw (other, to_posix_of_plain s (ground arith))
]

pub all_chars-append :
    (p : Char → Bool) (s t : String) → all_chars p (append s t) ≡ (all_chars p s && all_chars p t)
all_chars-append p String.[] t = rw nil-append
all_chars-append p (String.◌∷◌ c s) t = rw cons-append (ground (arith, all_chars-append p s t))

pub part-is_plain : (s : String) → all_chars is_part_char s ≡ true → all_chars is_plain s ≡ true
part-is_plain String.[] h = refl
part-is_plain (String.◌∷◌ c s) h = ground (arith, part-is_plain s)

pub join-is_plain :
    (ss : List String) → AllParts is_part_char ss → all_chars is_plain (join ss) ≡ true
unfolding join
join-is_plain [] h = refl
join-is_plain (s ∷ []) h = part-is_plain s h.0
join-is_plain (s ∷ t ∷ ss) h =
    rw all_chars-append (ground (arith, part-is_plain s h.0, join-is_plain (t ∷ ss) h.1))
