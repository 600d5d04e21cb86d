-- ===== src/Archive/Names/Escapes.antt =====
-- `safe_name` (services/worker/worker_app/archive.py) measured by `escapes_root`: what the sanitizer
-- writes into an archive against what the inventory reports as leading out of it.
use Prim.Native.Char.{Char, code}
use Prim.Native.String.{◌++◌ as append}
use text.Mathlib.TextLemmas.{cons≢nil, head-eq_of_cons-eq, tail-eq_of_cons-eq, cons-append}
use vulnscan.Base.{
  ℕ, zero, suc, ◌+◌, ◌/◌, ◌%◌, String, Bool, true, false, List, [], ◌∷◌, contains, str_eq, eq_iff,
  if◌then◌else◌, ◌≡◌, ◌≢◌, refl, sym, ap, ◌∙◌, arith, Bool-cases, inl, inr,
}
use vulnscan.Archive.Names.{
  to_posix, split, join, take, char_at, digit, decimal_before, decimal, all_chars, cleaned,
  safe_parts, safe_name, escapes_root, has_drive, is_empty, is_dropped, starts_with_slash,
}
use vulnscan.Archive.Names.Chars.{
  AllParts, all_chars-append, cleaned-all_chars, is_part_char, join-is_plain, split-AllParts,
  split-join, take-all_chars, to_posix-plain, to_posix_of_plain,
}

-- A part that is not `..` is not cut to `..` either.
take-parent : (s : String) → take 128 s ≡ ".." → s ≡ ".."
unfolding take
take-parent String.[] h = h
take-parent (String.◌∷◌ a String.[]) h = h
take-parent (String.◌∷◌ a (String.◌∷◌ b String.[])) h = h
take-parent (String.◌∷◌ a (String.◌∷◌ b (String.◌∷◌ c s))) h =
    absurd (cons≢nil (tail-eq_of_cons-eq (tail-eq_of_cons-eq h)))

take-empty : (s : String) → take 128 s ≡ "" → s ≡ ""
unfolding take
take-empty String.[] h = refl
take-empty (String.◌∷◌ a s) h = absurd (cons≢nil h)

-- The parts that survive are proper names: no separator, not empty, not the parent.
abbrev IsName : String → Type 0
IsName s = (all_chars is_part_char s ≡ true) × (str_eq s "" ≡ false) × (str_eq s ".." ≡ false)

abbrev AllNames : List String → Type 0
AllNames [] = Unit
AllNames (s ∷ ss) = IsName s × AllNames ss

AllNames-parts : (ss : List String) → AllNames ss → AllParts is_part_char ss
AllNames-parts [] h = tt
AllNames-parts (s ∷ ss) h = (h.0.0, AllNames-parts ss h.1)

contains_parent : (ss : List String) → AllNames ss → contains ".." ss ≡ false
contains_parent [] h = refl
contains_parent (s ∷ ss) h = ground (arith, contains_parent ss h.1)

starts_with_slash-name : (s t : String) → IsName s → starts_with_slash (append s t) ≡ false
starts_with_slash-name String.[] t h = ground (arith, eq_iff "" "")
starts_with_slash-name (String.◌∷◌ c s) t h = rw cons-append (ground arith)

starts_with_slash-join : (ss : List String) → AllNames ss → starts_with_slash (join ss) ≡ false
unfolding join
starts_with_slash-join [] h = refl
starts_with_slash-join (String.[] ∷ ss) h = ground (arith, eq_iff "" "")
starts_with_slash-join (String.◌∷◌ c s ∷ []) h = ground arith
starts_with_slash-join (s ∷ t ∷ ss) h = starts_with_slash-name s _ h.0

-- The path joined from proper names is judged by its drive alone.
escapes_root-join :
    (s : String) (ss : List String)
    → AllNames (s ∷ ss)
    → escapes_root (join (s ∷ ss)) ≡ has_drive (join (s ∷ ss))
unfolding escapes_root
escapes_root-join s ss h =
    rw (to_posix_of_plain (join (s ∷ ss)) (join-is_plain (s ∷ ss) (AllNames-parts (s ∷ ss) h))) (
      ground (
        arith,
        starts_with_slash-join (s ∷ ss) h,
        split-join s ss (AllNames-parts (s ∷ ss) h),
        contains_parent (s ∷ ss) h,
      ))

char_at-all_chars :
    (p : Char → Bool) (n : ℕ) (s : String)
    → all_chars p s ≡ true
    → p "0" ≡ true
    → p (char_at n s) ≡ true
unfolding char_at
char_at-all_chars p n String.[] h z = z
char_at-all_chars p zero (String.◌∷◌ c s) h z = ground arith
char_at-all_chars p (suc n) (String.◌∷◌ c s) h z = char_at-all_chars p n s (ground arith) z

digit-part : (d : ℕ) → is_part_char (digit d) ≡ true
unfolding digit
digit-part d = char_at-all_chars is_part_char d "0123456789" refl refl

decimal_before-part :
    (f n : ℕ) (rest : String)
    → all_chars is_part_char rest ≡ true
    → all_chars is_part_char (decimal_before f n rest) ≡ true
unfolding decimal_before
decimal_before-part zero n rest h = h
decimal_before-part (suc f) n rest h = ground (
  arith,
  digit-part n,
  digit-part (n % 10),
  decimal_before-part f (n / 10) (String.◌∷◌ (digit (n % 10)) rest),
)

-- The name that stands in for an empty path.
abbrev fallback_name : ℕ → String
fallback_name index = append "file-" (decimal index)

fallback-part : (index : ℕ) → all_chars is_part_char (fallback_name index) ≡ true
unfolding decimal
fallback-part index =
    all_chars-append is_part_char "file-" (decimal index)
    ∙ decimal_before-part (index + 1) index "" refl

fallback-head : (index : ℕ) → fallback_name index ≡ String.◌∷◌ "f" (append "ile-" (decimal index))
fallback-head index = cons-append "f" "ile-" (decimal index)

fallback_not_parent : (index : ℕ) → fallback_name index ≢ ".."
fallback_not_parent index e =
    let heads : ◌≡◌ {A = ℕ} 102 46 = ap code (head-eq_of_cons-eq (sym (fallback-head index) ∙ e)) in
    omega arith

fallback-IsName : (index : ℕ) → IsName (fallback_name index)
fallback-IsName index =
    let name = fallback_name index in
    (
      fallback-part index,
      ground (arith, eq_iff name "", λ (e : name ≡ ""). cons≢nil (sym (fallback-head index) ∙ e)),
      ground (arith, eq_iff name "..", fallback_not_parent index),
    )

escapes_root_choice :
    (index : ℕ) (ss : List String)
    → AllNames ss
    → let path = if is_empty (join ss) then fallback_name index else join ss in
      escapes_root path ≡ has_drive path
escapes_root_choice index [] h =
    unfold join in escapes_root-join (fallback_name index) [] (fallback-IsName index, tt)
escapes_root_choice index (s ∷ ss) h = elim (Bool-cases (is_empty (join (s ∷ ss)))) [
  | inl empty ↦
      rw empty
        (unfold join in escapes_root-join (fallback_name index) [] (fallback-IsName index, tt))
  | inr full ↦ rw full (escapes_root-join s ss h)
]

module _ (is_printable is_space : Char → Bool) where
  -- A part that the loop keeps is a name, also where it is cut.
  IsName-take :
      (c : String)
      → all_chars is_part_char c ≡ true
      → is_dropped is_printable is_space c ≡ false
      → IsName (take 128 c)
  IsName-take c a kept = (
    take-all_chars is_part_char 128 c a,
    ground (arith, eq_iff (take 128 c) "", eq_iff c "", take-empty c),
    ground (arith, eq_iff (take 128 c) "..", eq_iff c "..", take-parent c),
  )

  AllNames-safe_parts :
      (ss : List String) → AllParts is_part_char ss → AllNames (safe_parts is_printable is_space ss)
  unfolding safe_parts
  AllNames-safe_parts [] h = tt
  AllNames-safe_parts (s ∷ ss) h =
      let c = cleaned is_printable is_space s in
      elim (Bool-cases (is_dropped is_printable is_space c)) [
        | inl dropped ↦ rw dropped (AllNames-safe_parts ss h.1)
        | inr kept ↦ rw kept (
          IsName-take c (cleaned-all_chars is_part_char is_printable is_space s h.0) kept,
          AllNames-safe_parts ss h.1,
        )
      ]

  -- The path that the sanitizer writes does not lead out of the directory by `..`, by a leading
  -- separator or by a backslash: the inventory objects to it only if it begins with a drive.
  pub escapes_root-safe_name :
      (name : String) (index : ℕ)
      → let path = safe_name is_printable is_space name index in escapes_root path ≡ has_drive path
  unfolding safe_name
  escapes_root-safe_name name index = escapes_root_choice index _ (
      AllNames-safe_parts (split (to_posix name))
        (split-AllParts (to_posix name) (to_posix-plain name)))
