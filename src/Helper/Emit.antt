-- ===== src/Helper/Emit.antt =====
-- `emit` of the two log handlers of helper.py. The database `db_postgres` is always None there, so its
-- branch does nothing.
pub mod Terminal
pub mod Database
pub mod Trail
mod Tests
use honeypots.Prelude.{
  ℕ, Bool, true, false, ◌&&◌, ◌||◌, Option, none, some, List, [], ◌∷◌, ◌++◌, if◌then◌else◌,
}
use honeypots.Python.Bytes.{Text, codes, find}
use honeypots.Python.Result.{Exn}
use honeypots.Python.Value.{Value, text, dict, fields, item}
use honeypots.Helper.Filter.{
  Filters, Record, Texts, Target, file, db_sqlite, terminal, member, parse_record, dump_json,
}
use honeypots.Helper.Sqlite.{Row, insert_into_data_safe}

-- A `CustomHandler`; `has_db` says whether `self.db["db_sqlite"]` was set up.
pub record CustomHandler : Type 0 where
  pub logs : Text
  pub custom_filter : Option Filters
  pub has_db : Bool

-- The record, which all handlers share, whether the database takes statements, the rows of its table
-- and the lines on the terminal.
pub record State : Type 0 where
  pub record_ : Record
  pub executes : Bool
  pub rows : List Row
  pub lines : List Text

-- `word in self.logs`
unfoldable pub in_logs : Text → Text → Bool
unfolding find
in_logs w logs = elim (find w logs) [ none ↦ false | some i ↦ true ]

abbrev write_line : Text → State → State
write_line t s = record s { lines = s.lines ++ t ∷ [] }

-- `stdout.write(_record.msg + "\n")`, which raises where the message is no text
unfoldable pub print_message : State → State × Option Exn
print_message s = elim s.record_.msg [
  | text t ↦ (write_line t s, none)
  | _ ↦ (s, some Exn.type_error)
]

-- `self.db["db_sqlite"].insert_into_data_safe(_record.msg)`
unfoldable pub store_message : Bool → State → State × Option Exn
unfolding insert_into_data_safe
store_message true s =
    (record s { rows = insert_into_data_safe s.executes s.record_.msg s.rows }, none)
store_message false s = (s, some Exn.attribute_error)

-- the rest of the body, unless it raised before
abbrev and_then : State × Option Exn → (State → State × Option Exn) → State × Option Exn
and_then (s, some e) f = (s, some e)
and_then (s, none) f = f s

abbrev pub removes_errors : Option Filters → Bool
removes_errors none = false
removes_errors (some f) = member (codes "remove_errors") f.options

-- `record_repr` is the text of the record.
module _ (t : Texts) (record_repr : Record → Text) (now : Text) where
  -- one `if` of the body: parse for the target, then do what it is for
  unfoldable pub handle_for :
      CustomHandler → Target → (State → State × Option Exn) → State → State × Option Exn
  unfolding parse_record
  handle_for h target act s =
      let (r, kept) = parse_record t now h.custom_filter target s.record_ in
      let s' = record s { record_ = r } in if kept then act s' else (s', none)

  unfoldable pub emit_sqlite : CustomHandler → State → State × Option Exn
  unfolding in_logs handle_for store_message
  emit_sqlite h s =
      if in_logs (codes "db_sqlite") h.logs
      then handle_for h db_sqlite (store_message h.has_db) s
      else (s, none)

  unfoldable pub emit_line : CustomHandler → Text → State → State × Option Exn
  unfolding in_logs handle_for print_message
  emit_line h name s =
      if in_logs name h.logs then handle_for h terminal print_message s else (s, none)

  unfoldable pub emit_body : CustomHandler → State → State × Option Exn
  unfolding emit_sqlite emit_line
  emit_body h s =
      and_then (and_then (emit_sqlite h s) (emit_line h (codes "terminal")))
        (emit_line h (codes "syslog"))

  -- the `except` of the body
  unfoldable pub report : CustomHandler → State × Option Exn → State
  unfolding dump_json member
  report h (s, none) = s
  report h (s, some e) =
      if removes_errors h.custom_filter
      then s
      else write_line
          (dump_json t (
            dict (
              fields (
                item "error" (text (t.exn_repr e))
                ∷ item "logger" (text (record_repr s.record_))
                ∷ []))))
          s

  unfoldable pub emit : CustomHandler → State → State
  unfolding emit_body report
  emit h s = report h (emit_body h s)

  -- `emit` of `CustomHandlerFileRotate`: the record as it is then, if it goes to the file
  unfoldable pub emit_file : Option Filters → Record → Record × Bool
  unfolding parse_record
  emit_file f r = parse_record t now f file r
