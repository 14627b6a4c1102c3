-- ===== src/Ipp/Tables.antt =====
-- The tables of ipp_server.py.
pub mod Operations
use honeypots.Prelude.{ℕ, String, Option, none, some, List, [], ◌∷◌, ◌==◌, if◌then◌else◌}
use honeypots.Prelude.Int.{ℤ, pos, negsuc}

-- `table[code]`
unfoldable pub find_code : List (ℕ × String) → ℕ → Option String
find_code [] n = none
find_code ((m, s) ∷ table) n = if m == n then some s else find_code table n

-- the same at a number that may be negative
unfoldable pub find_signed : List (ℕ × String) → ℤ → Option String
unfolding find_code
find_signed table (pos n) = find_code table n
find_signed table (negsuc n) = none

unfoldable pub attribute_group_tags : List (ℕ × String)
attribute_group_tags =
    (0x0000, "Reserved")
    ∷ (0x0001, "operation-attributes-tag")
    ∷ (0x0002, "job-attributes-tag")
    ∷ (0x0003, "end-of-attributes-tag")
    ∷ (0x0004, "printer-attributes-tag")
    ∷ (0x0005, "unsupported-attributes-tag")
    ∷ (0x0006, "subscription-attributes-tag")
    ∷ (0x0007, "event-notification-attributes-tag")
    ∷ (0x0008, "resource-attributes-tag")
    ∷ (0x0009, "document-attributes-tag")
    ∷ (0x000a, "system-attributes-tag")
    ∷ []

unfoldable pub attribute_syntaxes : List (ℕ × String)
attribute_syntaxes =
    (0x0020, "Unassigned")
    ∷ (0x0021, "integer")
    ∷ (0x0022, "boolean")
    ∷ (0x0023, "enum")
    ∷ (0x0030, "octetString")
    ∷ (0x0031, "dateTime")
    ∷ (0x0032, "resolution")
    ∷ (0x0033, "rangeOfInteger")
    ∷ (0x0034, "begCollection")
    ∷ (0x0035, "textWithLanguage")
    ∷ (0x0036, "nameWithLanguage")
    ∷ (0x0037, "endCollection")
    ∷ (0x0040, "Unassigned")
    ∷ (0x0041, "textWithoutLanguage")
    ∷ (0x0042, "nameWithoutLanguage")
    ∷ (0x0043, "Unassigned")
    ∷ (0x0044, "keyword")
    ∷ (0x0045, "uri")
    ∷ (0x0046, "uriScheme")
    ∷ (0x0047, "charset")
    ∷ (0x0048, "naturalLanguage")
    ∷ (0x0049, "mimeMediaType")
    ∷ (0x004a, "memberAttrName")
    ∷ (0x007f, "extension")
    ∷ []
