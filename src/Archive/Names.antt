-- ===== src/Archive/Names.antt =====
-- The names of archive entries (`extension`, `escapes_root`, `is_os_metadata` and `safe_name` of
-- services/worker/worker_app/archive.py), as texts walked character by character.
use Prim.Native.Char.{Char, code}
use Prim.Native.String
use Prim.Native.String.{◌++◌ as append}
use vulnscan.Base.{
  ℕ, zero, suc, ◌+◌, ◌/◌, ◌%◌, ◌^◌, String, Bool, true, false, not, ◌&&◌, ◌||◌, Option, none, some,
  List, [], ◌∷◌, any, contains, str_eq, ltb, leb, ◌==◌, if◌then◌else◌,
}
pub mod Chars
pub mod Escapes
pub mod Drive

abbrev slash : Char
slash = "/"

abbrev is_slash : Char → Bool
is_slash c = code c == b'/'

-- `s.replace("\\", "/")`
unfoldable pub to_posix : String → String
to_posix String.[] = String.[]
to_posix (String.◌∷◌ c s) = String.◌∷◌ (if code c == 92 then slash else c) (to_posix s)

abbrev push_head : Char → List String → List String
push_head c [] = String.◌∷◌ c String.[] ∷ []
push_head c (p ∷ ps) = String.◌∷◌ c p ∷ ps

-- `s.split("/")`: never empty.
unfoldable pub split : String → List String
split String.[] = "" ∷ []
split (String.◌∷◌ c s) = let rest = split s in if is_slash c then "" ∷ rest else push_head c rest

abbrev pub is_empty : String → Bool
is_empty String.[] = true
is_empty (String.◌∷◌ c s) = false

-- `len(s) > 1 and s[1] == ":"`
abbrev pub has_drive : String → Bool
has_drive (String.◌∷◌ c (String.◌∷◌ d s)) = code d == b':'
has_drive s = false

abbrev starts_with_slash : String → Bool
starts_with_slash String.[] = false
starts_with_slash (String.◌∷◌ c s) = is_slash c

-- `escapes_root`
unfoldable pub escapes_root : String → Bool
unfolding to_posix split
escapes_root name =
    let normalized = to_posix name in
    if starts_with_slash normalized || has_drive normalized
    then true
    else contains ".." (split normalized)

-- `"/".join(parts)`
unfoldable pub join : List String → String
join [] = ""
join (p ∷ []) = p
join (p ∷ q ∷ ps) = append p (String.◌∷◌ slash (join (q ∷ ps)))

-- `s[:n]`
unfoldable pub take : ℕ → String → String
take zero s = ""
take (suc n) String.[] = ""
take (suc n) (String.◌∷◌ c s) = String.◌∷◌ c (take n s)

char_at : ℕ → String → Char
char_at n String.[] = "0"
char_at zero (String.◌∷◌ c s) = c
char_at (suc n) (String.◌∷◌ c s) = char_at n s

digit : ℕ → Char
unfolding char_at
digit d = char_at d "0123456789"

-- The decimal digits of a number before a text; a number has no more digits than its value plus
-- one.
unfoldable pub decimal_before : ℕ → ℕ → String → String
unfolding digit
decimal_before zero n rest = rest
decimal_before (suc f) n rest =
    let more = decimal_before f (n / 10) (String.◌∷◌ (digit (n % 10)) rest) in
    if ltb n 10 then String.◌∷◌ (digit n) rest else more

-- `str(n)`
unfoldable pub decimal : ℕ → String
unfolding decimal_before
decimal n = decimal_before (n + 1) n ""

abbrev pub all_chars : (Char → Bool) → String → Bool
all_chars p String.[] = true
all_chars p (String.◌∷◌ c s) = p c && all_chars p s

-- What Python's character tables say: `str.isprintable`, and the spaces that `str.strip` takes off.
module _ (is_printable is_space : Char → Bool) where
  -- `"".join(ch for ch in part if ch.isprintable())`
  unfoldable pub keep_printable : String → String
  keep_printable String.[] = ""
  keep_printable (String.◌∷◌ c s) =
      if is_printable c then String.◌∷◌ c (keep_printable s) else keep_printable s

  unfoldable pub strip_left : String → String
  strip_left String.[] = ""
  strip_left (String.◌∷◌ c s) = if is_space c then strip_left s else String.◌∷◌ c s

  unfoldable pub strip_right : String → String
  strip_right String.[] = ""
  strip_right (String.◌∷◌ c s) =
      let rest = strip_right s in if is_empty rest && is_space c then "" else String.◌∷◌ c rest

  -- `cleaned` in the loop of `safe_name`
  unfoldable pub cleaned : String → String
  unfolding keep_printable strip_left strip_right
  cleaned part = strip_right (strip_left (keep_printable part))

  -- `len(cleaned) == 2 and cleaned[1] == ":"`
  abbrev is_drive : String → Bool
  is_drive (String.◌∷◌ c (String.◌∷◌ d String.[])) = code d == b':'
  is_drive s = false

  -- The parts that the loop of `safe_name` passes over.
  abbrev is_dropped : String → Bool
  is_dropped part = str_eq part "" || str_eq part "." || str_eq part ".." || is_drive part

  -- The loop of `safe_name`.
  unfoldable pub safe_parts : List String → List String
  unfolding cleaned take
  safe_parts [] = []
  safe_parts (part ∷ parts) =
      if is_dropped (cleaned part)
      then safe_parts parts
      else take 128 (cleaned part) ∷ safe_parts parts

  -- `safe_name`
  unfoldable pub safe_name : String → ℕ → String
  unfolding safe_parts to_posix split join decimal
  safe_name name index =
      let joined = join (safe_parts (split (to_posix name))) in
      if is_empty joined then append "file-" (decimal index) else joined
