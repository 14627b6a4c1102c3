-- ===== src/Helper/Emit/Terminal.antt =====
-- The lines that a record becomes on the terminal.
use honeypots.Prelude.{ℕ, ◌≡◌, ◌≢◌, ap, refl, true, false, none, [], ◌∷◌, ◌++◌, arith}
use honeypots.Python.Bytes.{Text, codes, find}
use honeypots.Python.Value.{Fields, Value, text, dict, end, field, put, merge}
use honeypots.Helper.Serialize.Plain.{without_zero_other}
use honeypots.Helper.Serialize.{without_zero, serialize_object, serialize_fields}
use honeypots.Python.Json.{dumps, braces}
use honeypots.Helper.Filter.{
  Record, Texts, terminal, filtered, after_filters, serialize_message, stamped, written,
  parse_record, dump_json, is_empty,
}
use honeypots.Helper.Filter.Removed.{stamped_entry}
use honeypots.Helper.Emit.{
  CustomHandler, State, in_logs, print_message, handle_for, emit_sqlite, emit_line, emit_body,
  report, emit,
}

abbrev IsEnd : Fields → Type 0
IsEnd end = Unit {0}
IsEnd (field k v d) = ⊥

put_not-IsEnd : (d : Fields) (k : Text) (v : Value) → ¬ IsEnd (put d k v)
unfolding put
put_not-IsEnd end k v h = h
put_not-IsEnd (field j w d) k v h = ground (arith, h)

merge_not-IsEnd : (d e : Fields) → ¬ IsEnd d → ¬ IsEnd (merge d e)
unfolding merge
merge_not-IsEnd d end n = n
merge_not-IsEnd d (field k v e) n = merge_not-IsEnd (put d k v) e (put_not-IsEnd d k v)

serialize_not_empty :
    (t : Texts) (d : Fields)
    → ¬ IsEnd d
    → is_empty (dict (serialize_fields t.repr t.float_text d)) ≡ false
unfolding serialize_fields
serialize_not_empty t end n = absurd (n tt)
serialize_not_empty t (field k v d) n = refl

pub stamped_not_empty :
    (t : Texts) (now : Text) (d : Fields) → is_empty (dict (stamped_entry t now d)) ≡ false
stamped_not_empty t now d =
    serialize_not_empty t (merge (field (codes "timestamp") (text now) end) d)
      (merge_not-IsEnd (field (codes "timestamp") (text now) end) d (λ h. h))

-- the line of a dictionary that is logged without filters
abbrev pub line_of : Texts → Text → Fields → Text
line_of t now d = dump_json t (dict (stamped_entry t now d))

parse_record-dict :
    (t : Texts) (now : Text) (r : Record) (d : Fields)
    → r.msg ≡ dict d
    → parse_record t now none terminal r ≡ (record r { msg = text (line_of t now d) }, true)
unfolding parse_record serialize_message filtered after_filters stamped serialize_object written
parse_record-dict t now r d h = ground (arith, h, stamped_not_empty t now d)

quoted_again :
    (t : Texts) (now : Text) (r : Record) (c : ℕ) (line : Text)
    → c ≢ 0
    → r.msg ≡ text (c ∷ line)
    → parse_record t now none terminal r
      ≡ (record r { msg = text (dump_json t (text (without_zero (c ∷ line)))) }, true)
unfolding parse_record serialize_message filtered after_filters stamped serialize_object written
quoted_again t now r c line n h = ground (arith, h, without_zero_other c line n)

-- a line begins with a brace
line_begins :
    (t : Texts) (now : Text) (d : Fields) → (rest : Text) × (line_of t now d ≡ b'{' ∷ rest)
unfolding dump_json dumps braces
line_begins t now d = (_, refl)

module _ (t : Texts) (record_repr : Record → Text) (now : Text) where
  -- Without filters a handler whose logs are `terminal` writes one line for a dictionary that is
  -- logged: the serialized entry with the time, as JSON. It stores no row, and the record that the
  -- other handlers get holds the line from then on.
  pub emit_terminal :
      (h : CustomHandler) (s : State) (d : Fields)
      → h.logs ≡ codes "terminal"
      → h.custom_filter ≡ none
      → s.record_.msg ≡ dict d
      → emit t record_repr now h s ≡ record {
        record_ = record s.record_ { msg = text (line_of t now d) };
        executes = s.executes;
        rows = s.rows;
        lines = s.lines ++ line_of t now d ∷ [];
      }
  unfolding emit emit_body emit_sqlite emit_line handle_for print_message report in_logs find
  emit_terminal h s d l f m = rw (l, f) (ground (arith, parse_record-dict t now s.record_ d m))

  -- Where the syslog is asked for too, the same handler writes a second line for the same entry: the
  -- first line, quoted once more.
  pub emit_terminal_syslog :
      (h : CustomHandler) (s : State) (d : Fields)
      → h.logs ≡ codes "terminal,syslog"
      → h.custom_filter ≡ none
      → s.record_.msg ≡ dict d
      → (emit t record_repr now h s).lines
        ≡ s.lines
          ++ line_of t now d ∷ []
          ++ dump_json t (text (without_zero (line_of t now d))) ∷ []
  unfolding emit emit_body emit_sqlite emit_line handle_for print_message report in_logs find
  emit_terminal_syslog h s d l f m =
      let (rest, e) = line_begins t now d in
      rw (l, f)
        (ground (
          arith,
          e,
          parse_record-dict t now s.record_ d m,
          quoted_again t now (record s.record_ { msg = text (line_of t now d) }) b'{' rest
              (omega arith) (ap text e),
        ))
