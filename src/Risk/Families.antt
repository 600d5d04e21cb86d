-- ===== src/Risk/Families.antt =====
-- The families of correlated findings (`CODE_FAMILIES` and `family_of` of
-- packages/vscommon/weights.py).
use vulnscan.Base.{String, [], ◌∷◌, Dict, get_or}

-- `CODE_FAMILIES`
unfoldable pub code_families : Dict String
code_families =
    ("PDF_DAMAGED", "pdf_broken")
    ∷ ("PDF_MALFORMED", "pdf_broken")
    ∷ ("PDF_XREF_BROKEN", "pdf_broken")
    ∷ ("PDF_XREF_RECONSTRUCTED", "pdf_broken")
    ∷ ("PDF_STREAM_LENGTH_MISMATCH", "pdf_broken")
    ∷ ("PDF_JAVASCRIPT", "pdf_js")
    ∷ ("PDF_JS", "pdf_js")
    ∷ ("PDF_OPENACTION", "pdf_autorun")
    ∷ ("PDF_AUTO_ACTION", "pdf_autorun")
    ∷ ("PDF_EMBEDDED_FILE", "pdf_embedded")
    ∷ ("PDF_EMBEDDED_NAMES", "pdf_embedded")
    ∷ ("PDF_ANNOT_ACTION", "pdf_annot")
    ∷ ("PDF_ANNOT_HIDDEN_ACTION", "pdf_annot")
    ∷ ("MIME_MISMATCH", "type_lie")
    ∷ ("EXT_MISMATCH", "type_lie")
    ∷ ("TYPE_UNKNOWN", "type_unsupported")
    ∷ ("TYPE_UNSUPPORTED", "type_unsupported")
    ∷ ("ARCHIVE_INCOMPLETE", "type_unsupported")
    ∷ ("ARCHIVE_PATH_TRAVERSAL", "archive_escape")
    ∷ ("ARCHIVE_SYMLINK", "archive_escape")
    ∷ ("ARCHIVE_MALFORMED", "container_broken")
    ∷ ("DOCX_MALFORMED", "container_broken")
    ∷ ("DOCX_EXTERNAL_TEMPLATE", "docx_remote")
    ∷ ("DOCX_EXTERNAL_OBJECT", "docx_remote")
    ∷ ("DOCX_EXTERNAL_LINK", "docx_remote")
    ∷ ("DOCX_DDE", "docx_field")
    ∷ ("DOCX_FIELD_OBFUSCATED", "docx_field")
    ∷ ("DOCX_FIELD_INCLUDE", "docx_field")
    ∷ ("DOCX_OLE_OBJECT", "docx_embedded")
    ∷ ("DOCX_EMBEDDED", "docx_embedded")
    ∷ []

-- A code with no family is a family of its own.
unfoldable pub family_of : String → String
unfolding get_or code_families
family_of code = get_or code code_families code
