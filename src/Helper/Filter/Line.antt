-- ===== src/Helper/Filter/Line.antt =====
-- What the terminal and the syslog get of a record.
use honeypots.Prelude.{◌≡◌, true, Option, inl, inr, arith, Bool-cases, Option-cases}
use honeypots.Python.Bytes.{Text}
use honeypots.Python.Value.{Value, text}
use honeypots.Python.Json.Printable.{IsPrintable, FloatsArePrintable, dumps-IsPrintable}
use honeypots.Helper.Filter.{
  Filters, Record, Texts, terminal, serialize_message, written, parse_record, dump_json,
  encoder_default, is_empty,
}

dump_json-IsPrintable :
    (t : Texts) → FloatsArePrintable t.float_text → (v : Value) → IsPrintable (dump_json t v)
unfolding dump_json
dump_json-IsPrintable t f v = dumps-IsPrintable (encoder_default t) t.float_text f v

-- Whatever a client made a server log, what the terminal gets of the record is one line of printable
-- ASCII: no line break and no control character of the client is in it. The text of a float is
-- assumed to be printable.
pub parse_record_line :
    (t : Texts) (now : Text) (f : Option Filters) (r r' : Record)
    → FloatsArePrintable t.float_text
    → parse_record t now f terminal r ≡ (r', true)
    → (line : Text) × (r'.msg ≡ text line) × IsPrintable line
unfolding parse_record written
parse_record_line t now f r r' p h = elim (Option-cases ((serialize_message t now f r).1)) [
  | inl e ↦ ground (arith, e, h)
  | inr (v, e) ↦ elim (Bool-cases (is_empty v)) [
    | inl b ↦ ground (arith, e, b, h)
    | inr b ↦ (dump_json t v, ground (arith, e, b, h), dump_json-IsPrintable t p v)
  ]
]
