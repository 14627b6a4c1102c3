-- ===== src/Python/Query.antt =====
-- `parse_qsl` of urllib.parse, as the form of a request is read: without blank values and strictness.
pub mod RoundTrip
use honeypots.Prelude.{
  ℕ, ◌+◌, ◌-◌, ◌*◌, Bool, true, false, ◌&&◌, ◌||◌, Option, none, some, List, [], ◌∷◌, ◌++◌, leb,
  ltb, ◌==◌, map, if◌then◌else◌,
}
use mathlib.Core.Option
use honeypots.Python.Bytes.{Bytes, Text, codes, split}
use honeypots.Python.Utf8.{decode_replace}

abbrev is_hex : ℕ → Bool
is_hex c = leb b'0' c && leb c b'9' || leb b'A' c && leb c b'F' || leb b'a' c && leb c b'f'

abbrev hex_value : ℕ → ℕ
hex_value c = if leb c b'9' then c - b'0' else if leb c b'F' then c - 55 else c - 87

-- `unquote_to_bytes`: a percent sign without two hexadecimal digits stays
unfoldable pub unquote_bytes : Bytes → Bytes
unquote_bytes [] = []
unquote_bytes (c ∷ []) = c ∷ []
unquote_bytes (c ∷ a ∷ []) = c ∷ a ∷ []
unquote_bytes (c ∷ a ∷ b ∷ rest) = elim (c == b'%' && (is_hex a && is_hex b)) [
  | true ↦ (hex_value a * 16 + hex_value b) ∷ unquote_bytes rest
  | false ↦ c ∷ unquote_bytes (a ∷ b ∷ rest)
]

unfoldable pub unquote_run : Bytes → Text
unfolding unquote_bytes decode_replace
unquote_run run = decode_replace (unquote_bytes run)

-- Runs of ASCII are unquoted and decoded, other characters stay.
unfoldable pub unquote_from : Bytes → Text → Text
unfolding unquote_run
unquote_from run [] = unquote_run run
unquote_from run (c ∷ cs) = elim (ltb c 128) [
  | true ↦ unquote_from (run ++ c ∷ []) cs
  | false ↦ unquote_run run ++ c ∷ unquote_from [] cs
]

unfoldable pub unquote : Text → Text
unfolding unquote_from
unquote = unquote_from []

-- `text.replace("+", " ")`
unfoldable pub plus_to_space : Text → Text
plus_to_space [] = []
plus_to_space (c ∷ cs) = (if c == b'+' then 32 else c) ∷ plus_to_space cs

-- `text.split("=", 1)` where the sign occurs
unfoldable pub cut_equals : Text → Option (Text × Text)
cut_equals [] = none
cut_equals (c ∷ cs) =
    let rest = Option.map (λ (p : Text × Text). (c ∷ p.0, p.1)) (cut_equals cs) in
    if c == b'=' then some ([], cs) else rest

unfoldable pub field_text : Text → Text
unfolding unquote plus_to_space
field_text t = unquote (plus_to_space t)

-- one part of the query: a pair, unless it has no sign or a blank value
unfoldable pub pair_of : Text → List (Text × Text)
unfolding cut_equals field_text
pair_of part = elim (cut_equals part) [
  | none ↦ []
  | some p ↦ elim p.1 [ [] ↦ [] | c ∷ v ↦ (field_text p.0, field_text (c ∷ v)) ∷ [] ]
]

unfoldable pub pairs_of : List Text → List (Text × Text)
unfolding pair_of
pairs_of [] = []
pairs_of (part ∷ parts) = pair_of part ++ pairs_of parts

unfoldable pub parse_qsl : Text → List (Text × Text)
unfolding pairs_of
parse_qsl qs = pairs_of (split (codes "&") qs)
