-- ===== src/Helper/Filter/Dropped.antt =====
-- The messages that no handler gets.
use honeypots.Prelude.{◌≡◌, refl, true, false, ◌⊎◌, inl, inr, some, arith}
use honeypots.Python.Bytes.{Text, codes}
use honeypots.Python.Value.{Fields, text, dict, get, has}
use honeypots.Helper.Filter.{
  Filters, Record, Texts, Target, dropped, member, in_message, drops_error, filter_fields,
  filter_message, apply_filters, filtered, after_filters, serialize_message, parse_record,
}

filter_fields_init :
    (f : Filters) (d : Fields)
    → member (codes "remove_init") f.options ≡ true
    → get d (codes "action") ≡ some (text (codes "process"))
    → filter_fields f d ≡ (d, dropped)
unfolding filter_fields
filter_fields_init f d o a = rw (o, a) refl

-- With `remove_errors` no entry with the key `error`, and with `remove_init` no entry of the start of
-- a server, is handed on by any handler, and the record is left as it was.
pub parse_record_filtered :
    (t : Texts) (now : Text) (f : Filters) (target : Target) (r : Record) (d : Fields)
    → r.msg ≡ dict d
    → ((member (codes "remove_errors") f.options ≡ true) × (has d (codes "error") ≡ true))
      ⊎ ((member (codes "remove_init") f.options ≡ true)
          × (get d (codes "action") ≡ some (text (codes "process"))))
    → parse_record t now (some f) target r ≡ (r, false)
unfolding parse_record serialize_message filtered apply_filters drops_error in_message after_filters
    filter_message
parse_record_filtered t now f target r d m (inl (o, e)) = ground (arith, m, o, e)
parse_record_filtered t now f target r d m (inr (o, a)) =
    ground (arith, m, filter_fields_init f d o a)
