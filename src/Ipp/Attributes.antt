-- ===== src/Ipp/Attributes.antt =====
-- `_parse_attributes` of ipp_server.py.
pub mod Total
use honeypots.Prelude.{
  ℕ, zero, suc, ◌+◌, Bool, true, false, ◌||◌, String, Option, none, some, List, [], ◌∷◌, ◌++◌,
  length, drop, ltb, if◌then◌else◌,
}
use honeypots.Prelude.Int.{ℤ, pos, negsuc}
use honeypots.Python.Bytes.{Bytes, Text, bytes_eq, codes, str}
use honeypots.Python.Result.{
  Exn, Result, ok, raised, ◌>>=◌, of_option, key_error, index_error, struct_error,
}
use honeypots.Helper.{Argument, bytes, text, int, object, check_bytes}
use honeypots.Ipp.Tables.{find_signed, attribute_syntaxes, attribute_group_tags}
use honeypots.Ipp.Reader.{get_uint8_t, get_uint16_t, get_uint32_t, get_string}

abbrev pub Groups : Type 0
Groups = List (Text × List Text)

-- `str` of an integer that may be negative
abbrev pub str_int : ℤ → Text
str_int (pos n) = str n
str_int (negsuc n) = b'-' ∷ str (suc n)

-- `groups[-1][1].append(value)`
unfoldable pub append_last : Groups → Text → Result Groups
append_last [] value = raised index_error
append_last ((a, vs) ∷ []) value = ok ((a, vs ++ value ∷ []) ∷ [])
append_last (g ∷ h ∷ gs) value = do rest ← append_last (h ∷ gs) value; ok (g ∷ rest)

-- `attribute == b""`; an integer is not
abbrev is_empty : Argument → Bool
is_empty (bytes []) = true
is_empty _ = false

unfoldable pub add_value : Groups → Argument → Argument → Result Groups
unfolding append_last check_bytes
add_value groups attribute value =
    if is_empty attribute
    then append_last groups (check_bytes value)
    else ok (groups ++ (check_bytes attribute, check_bytes value ∷ []) ∷ [])

-- The attribute and the value at an index, by the syntax of the attribute.
pub record Field : Type 0 where
  pub index : ℕ
  pub attribute : Argument
  pub value : Argument

unfoldable pub read_field : Bytes → ℕ → String → Result Field
unfolding get_string
read_field data_ index syntax =
    if bytes_eq (codes syntax) (codes "integer")
    then (do
      (i, n) ← get_uint32_t index data_
      ok (record { index = i; attribute = int n; value = text [] }))
    else if bytes_eq (codes syntax) (codes "boolean")
    then (do
      (i, n) ← get_uint8_t index data_
      ok (record { index = i; attribute = object (str_int n); value = text [] }))
    else (do
      (i, name_length) ← get_uint16_t index data_
      let (j, attribute) = get_string i name_length data_
      (k, value_length) ← get_uint16_t j data_
      let (l, value) = get_string k value_length data_
      ok (record { index = l; attribute = bytes attribute; value = bytes value }))

-- The variables of the loop.
pub record State : Type 0 where
  pub index : ℕ
  pub attr_type : ℤ
  pub groups : Groups

-- How a round ends: the loop goes on, or it is left by `break`, with the status.
pub data Round : Type 0 where
  more : State → Round
  stop : Groups → Text → Round

abbrev pub failed : Text
failed = codes "failed"

abbrev pub success : Text
success = codes "success"

abbrev pub is_some : Option String → Bool
is_some none = false
is_some (some s) = true

-- behind the groups, the type of the next attribute
unfoldable pub next_type : Bytes → ℕ → Groups → Round
next_type data_ index groups = elim (get_uint8_t index data_) [
  | raised e ↦ stop groups failed
  | ok (i, attr_type) ↦
      if is_some (find_signed attribute_group_tags attr_type)
      then stop groups success
      else more (record { index = i; attr_type = attr_type; groups = groups })
]

unfoldable pub read_groups : Bytes → State → Result (ℕ × Groups)
read_groups data_ s = do
  syntax ← of_option key_error (find_signed attribute_syntaxes s.attr_type)
  f ← read_field data_ s.index syntax
  groups ← add_value s.groups f.attribute f.value
  ok (f.index, groups)

-- The exceptions that can be raised in a round are those that it catches.
unfoldable pub round : Bytes → State → Round
round data_ s = elim (read_groups data_ s) [
  | raised e ↦ stop s.groups failed
  | ok (i, groups) ↦ next_type data_ i groups
]

-- `while index < to_parse_len`, with `none` where the fuel runs out
unfoldable pub loop : ℕ → Bytes → ℕ → State → Option (Groups × Text)
loop zero data_ to_parse_len s = none
loop (suc fuel) data_ to_parse_len s =
    if ltb s.index to_parse_len
    then elim (round data_ s) [
      | stop groups status ↦ some (groups, status)
      | more s' ↦ loop fuel data_ to_parse_len s'
    ]
    else some (s.groups, success)

-- `to_parse_len` is the length of what follows the index, not the end of the data.
unfoldable pub parse_attributes : Bytes → ℕ → ℤ → Option (Groups × Text)
parse_attributes data_ index attr_type =
    let to_parse_len = length (drop index data_) in
    loop (suc to_parse_len) data_ to_parse_len
      (record { index = index; attr_type = attr_type; groups = [] })
