-- ===== src/Risk/Weights.antt =====
-- The weight table (packages/vscommon/weights.py): what a finding weighs, the overrides of a
-- tenant and of the file.
use vulnscan.Base.{
  ℕ, String, Bool, true, false, Option, none, some, List, [], ◌∷◌, ◌++◌, Dict, lookup, get_or,
  insert, update, contains, if◌then◌else◌, ℤ, pos, ◌>>=◌, starts_with,
}
use vulnscan.Risk.Model.{Severity, info, low, medium, high, critical}
pub mod Laws

pub record Rule : Type 0 where
  pub score : ℤ
  pub severity : Severity

-- `_r`
abbrev pub rule : ℕ → Severity → Rule
rule score severity = record { score = pos score; severity = severity }

-- `FALLBACK`: the weight of a code that the table does not hold.
abbrev pub fallback : Rule
fallback = rule 25 medium

-- `DEFAULT_WEIGHTS`
unfoldable pub default_weights : Dict Rule
default_weights =
    ("TYPE_UNKNOWN", rule 25 medium)
    ∷ ("TYPE_UNSUPPORTED", rule 30 medium)
    ∷ ("TYPE_EXECUTABLE", rule 100 critical)
    ∷ ("MIME_MISMATCH", rule 25 medium)
    ∷ ("EXT_DANGEROUS", rule 60 high)
    ∷ ("EXT_MISMATCH", rule 15 low)
    ∷ ("POLYGLOT_ARCHIVE", rule 70 high)
    ∷ ("TYPE_SIGNATURE_OFFSET", rule 35 medium)
    ∷ ("TYPE_DETECTOR_CONFLICT", rule 45 high)
    ∷ ("PDF_OPENACTION", rule 45 high)
    ∷ ("PDF_AUTO_ACTION", rule 40 high)
    ∷ ("PDF_JAVASCRIPT", rule 45 high)
    ∷ ("PDF_JS", rule 40 high)
    ∷ ("PDF_LAUNCH", rule 85 critical)
    ∷ ("PDF_EMBEDDED_FILE", rule 50 high)
    ∷ ("PDF_EMBEDDED_NAMES", rule 50 high)
    ∷ ("PDF_RICHMEDIA", rule 35 medium)
    ∷ ("PDF_XFA", rule 30 medium)
    ∷ ("PDF_GOTOE", rule 30 medium)
    ∷ ("PDF_GOTOR", rule 15 low)
    ∷ ("PDF_SUBMITFORM", rule 30 medium)
    ∷ ("PDF_JBIG2", rule 25 medium)
    ∷ ("PDF_OBJSTM", rule 5 info)
    ∷ ("PDF_EXTERNAL_URI", rule 10 low)
    ∷ ("PDF_TOO_MANY_PAGES", rule 30 medium)
    ∷ ("PDF_ENCRYPTED", rule 40 high)
    ∷ ("PDF_ENCRYPTED_OWNER", rule 20 medium)
    ∷ ("PDF_MALFORMED", rule 35 medium)
    ∷ ("PDF_IMPORTDATA", rule 35 medium)
    ∷ ("PDF_SETOCGSTATE", rule 15 low)
    ∷ ("PDF_RENDITION", rule 30 medium)
    ∷ ("PDF_MOVIE", rule 25 medium)
    ∷ ("PDF_SOUND", rule 25 medium)
    ∷ ("PDF_XREF_RECONSTRUCTED", rule 30 medium)
    ∷ ("PDF_XREF_BROKEN", rule 35 medium)
    ∷ ("PDF_DAMAGED", rule 30 medium)
    ∷ ("PDF_INCREMENTAL_UPDATES", rule 10 low)
    ∷ ("PDF_TRAILING_DATA", rule 45 high)
    ∷ ("PDF_TOO_MANY_OBJECTS", rule 35 medium)
    ∷ ("PDF_DEEP_NESTING", rule 40 high)
    ∷ ("PDF_ANNOT_ACTION", rule 35 medium)
    ∷ ("PDF_ANNOT_AUTO_ACTION", rule 40 high)
    ∷ ("PDF_ANNOT_HIDDEN_ACTION", rule 70 high)
    ∷ ("PDF_FONT_EMBEDDED", rule 0 info)
    ∷ ("PDF_FONT_OVERSIZED", rule 35 medium)
    ∷ ("PDF_TOO_MANY_FONTS", rule 25 medium)
    ∷ ("PDF_UNUSUAL_FILTER", rule 40 high)
    ∷ ("PDF_FILTER_CHAIN", rule 30 medium)
    ∷ ("PDF_STREAM_LENGTH_MISMATCH", rule 20 medium)
    ∷ ("PDF_STREAM_BOMB", rule 70 high)
    ∷ ("PDF_EMBEDDED_EXECUTABLE", rule 95 critical)
    ∷ ("IMG_PIXEL_BOMB", rule 70 high)
    ∷ ("IMG_DECOMPRESSION_BOMB", rule 65 high)
    ∷ ("IMG_TOO_MANY_FRAMES", rule 30 medium)
    ∷ ("IMG_MALFORMED", rule 35 medium)
    ∷ ("IMG_HAS_EXIF", rule 0 info)
    ∷ ("ARCHIVE_BOMB", rule 100 critical)
    ∷ ("ARCHIVE_INCOMPLETE", rule 30 medium)
    ∷ ("ARCHIVE_ENCRYPTED", rule 40 high)
    ∷ ("ARCHIVE_PATH_TRAVERSAL", rule 60 high)
    ∷ ("ARCHIVE_SYMLINK", rule 45 high)
    ∷ ("ARCHIVE_EXECUTABLE", rule 70 high)
    ∷ ("ARCHIVE_MALFORMED", rule 35 medium)
    ∷ ("DOCX_VBA", rule 70 high)
    ∷ ("DOCX_ACTIVEX", rule 60 high)
    ∷ ("DOCX_OLE_OBJECT", rule 50 high)
    ∷ ("DOCX_EMBEDDED", rule 10 low)
    ∷ ("DOCX_DDE", rule 90 critical)
    ∷ ("DOCX_FIELD_OBFUSCATED", rule 60 high)
    ∷ ("DOCX_FIELD_INCLUDE", rule 30 medium)
    ∷ ("DOCX_EXTERNAL_TEMPLATE", rule 80 high)
    ∷ ("DOCX_EXTERNAL_OBJECT", rule 80 high)
    ∷ ("DOCX_EXTERNAL_LINK", rule 30 medium)
    ∷ ("DOCX_ALTCHUNK", rule 45 high)
    ∷ ("DOCX_DTD", rule 60 high)
    ∷ ("DOCX_MALFORMED", rule 35 medium)
    ∷ ("AV_SIGNATURE_MATCH", rule 100 critical)
    ∷ ("AV_ERROR", rule 10 low)
    ∷ ("YARA:critical", rule 95 critical)
    ∷ ("YARA:high", rule 60 high)
    ∷ ("YARA:medium", rule 35 medium)
    ∷ ("YARA:low", rule 15 low)
    ∷ ("STAGE_FAILED", rule 10 low)
    ∷ ("STAGE_TIMEOUT", rule 10 low)
    ∷ ("CDR_FAILED", rule 0 medium)
    ∷ []

pub record WeightTable : Type 0 where
  pub rules : Dict Rule
  pub unknown_codes : List String
  pub degraded : Bool

-- `WeightTable(rules, degraded)`
unfoldable pub make_table : Dict Rule → Bool → WeightTable
unfolding default_weights update
make_table rules degraded = record {
  rules = update default_weights rules;
  unknown_codes = [];
  degraded = degraded;
}

-- `unknown_codes.add(key)`, where the key is new.
abbrev note_unknown : String → WeightTable → WeightTable
note_unknown key t =
    if contains key t.unknown_codes
    then t
    else record t { unknown_codes = t.unknown_codes ++ key ∷ [] }

-- `WeightTable.rule_for`: the rule, and the table with an unknown code noted.
unfoldable pub rule_for : WeightTable → String → Rule × WeightTable
unfolding lookup
rule_for t key = elim (lookup key t.rules) [
  | none ↦ (fallback, note_unknown key t)
  | some r ↦ (r, t)
]

-- `WeightTable.score_for`
unfoldable pub score_for : WeightTable → String → ℤ
unfolding rule_for
score_for t key = (rule_for t key).0.score

-- The comprehension of `with_overrides`: each code with its new score and the severity that the
-- table gives it. Looking the codes up notes the unknown ones.
unfoldable pub override_rules : WeightTable → Dict ℤ → Dict Rule × WeightTable
unfolding rule_for
override_rules t [] = ([], t)
override_rules t ((code, score) ∷ rest) =
    let (r, t') = rule_for t code in
    let (rules, t'') = override_rules t' rest in
    ((code, record { score = score; severity = r.severity }) ∷ rules, t'')

-- `WeightTable.with_overrides`
unfoldable pub with_overrides : WeightTable → Dict ℤ → WeightTable
unfolding override_rules make_table update
with_overrides t [] = t
with_overrides t (o ∷ os) =
    let (merged, t') = override_rules t (o ∷ os) in
    record (make_table (update t.rules merged) false) { unknown_codes = t'.unknown_codes }

-- One value of the weights file: each part is absent, or was read, or makes the reading raise.
pub data Field (A : Type 0) : Type 0 where
  absent : Field A
  given : A → Field A
  invalid : Field A

pub record Payload : Type 0 where
  pub score : Field ℤ
  pub severity : Field Severity

-- What stands at the path: the file system and `json.loads` are not part of the program.
pub data WeightsFile : Type 0 where
  no_path not_a_file unreadable : WeightsFile
  parsed : List (String × Payload) → WeightsFile

abbrev field_or : {A : Type 0} → Field A → A → Option A
field_or absent default = some default
field_or (given a) default = some a
field_or invalid default = none

abbrev is_comment : String → Bool
is_comment code = starts_with code "_"

abbrev read_rule : Payload → Rule → Option Rule
read_rule p default = do
  score ← field_or p.score default.score
  severity ← field_or p.severity default.severity
  some (record { score = score; severity = severity })

-- The loop of `load` over the file's entries; `none` is an exception.
unfoldable pub read_rules : List (String × Payload) → Dict Rule → Option (Dict Rule)
unfolding get_or insert default_weights
read_rules [] rules = some rules
read_rules ((code, payload) ∷ rest) rules = elim (is_comment code) [
  | true ↦ read_rules rest rules
  | false ↦ do
    r ← read_rule payload (get_or code default_weights fallback)
    read_rules rest (insert code r rules)
]

-- `WeightTable.load`
unfoldable pub load : WeightsFile → WeightTable
unfolding read_rules make_table
load no_path = make_table [] false
load not_a_file = make_table [] false
load unreadable = make_table [] true
load (parsed entries) = elim (read_rules entries []) [
  | none ↦ make_table [] true
  | some rules ↦ make_table rules false
]
