-- ===== src/Helper/Emit/Database.antt =====
-- What a record leaves in the table of the database.
use honeypots.Prelude.{ℕ, ◌≡◌, ◌∙◌, ap, true, none, some, [], ◌∷◌, ◌++◌, arith}
use honeypots.Python.Bytes.{Text, codes, find}
use honeypots.Python.Value.{Value, Fields, dict, get}
use honeypots.Base.{Server}
use honeypots.Base.Login.{login_entry}
use honeypots.Helper.Serialize.{serialize_object}
use honeypots.Helper.Filter.{
  Record, Texts, db_sqlite, filtered, after_filters, serialize_message, stamped, written,
  parse_record,
}
use honeypots.Helper.Sqlite.{insert_into_data_safe}
use honeypots.Helper.Sqlite.Rows.{
  login_row, insert-login, insert-nested, IsNested, Unique, IsStorable,
}
use honeypots.Helper.Emit.{
  CustomHandler, State, in_logs, store_message, handle_for, emit_sqlite, emit_line, emit_body,
  report, emit,
}
use honeypots.Helper.Emit.Terminal.{stamped_not_empty}

module _ (t : Texts) (record_repr : Record → Text) (now : Text) where
  parse_record-sqlite :
      (r : Record) (d : Fields) → r.msg ≡ dict d → parse_record t now none db_sqlite r ≡ (r, true)
  unfolding parse_record serialize_message filtered after_filters stamped serialize_object written
  parse_record-sqlite r d h = ground (arith, h, stamped_not_empty t now d)

  -- `emit` hands the message itself to the table, not what `_parse_record` made of it
  emit-sqlite :
      (h : CustomHandler) (s : State) (d : Fields)
      → h.logs ≡ codes "db_sqlite"
      → h.custom_filter ≡ none
      → h.has_db ≡ true
      → s.record_.msg ≡ dict d
      → emit t record_repr now h s
        ≡ record s { rows = insert_into_data_safe s.executes (dict d) s.rows }
  unfolding emit emit_body emit_sqlite emit_line handle_for store_message report in_logs find
  emit-sqlite h s d l f b m = rw (l, f, b) (ground (arith, parse_record-sqlite s.record_ d m))

  -- A login at a server whose logs go to a database that takes statements, without filters, becomes one
  -- row: the name of the server, the status of the login, both addresses, the name and the password
  -- that were given, and nothing under `data` and `error`.
  pub emit-login :
      (h : CustomHandler) (s : State) (q : Server) (u p ip : Text) (port : ℕ)
      → h.logs ≡ codes "db_sqlite"
      → h.custom_filter ≡ none
      → h.has_db ≡ true
      → s.record_.msg ≡ dict (login_entry q u p ip port)
      → IsStorable q u p ip port
      → s.executes ≡ true
      → emit t record_repr now h s ≡ record s { rows = s.rows ++ login_row q u p ip port ∷ [] }
  emit-login h s q u p ip port l f b m a x =
      emit-sqlite h s (login_entry q u p ip port) l f b m
      ∙ ap (λ rows. record s { rows = rows })
          (ap (λ e. insert_into_data_safe e (dict (login_entry q u p ip port)) s.rows) x
            ∙ insert-login q u p ip port s.rows a)

  -- Where the logs go to a database only, without filters, an entry whose `data` is a dictionary or a
  -- list is lost: no row is stored and nothing is written, whatever else the entry has.
  pub emit-nested :
      (h : CustomHandler) (s : State) (d : Fields) (v : Value)
      → h.logs ≡ codes "db_sqlite"
      → h.custom_filter ≡ none
      → h.has_db ≡ true
      → s.record_.msg ≡ dict d
      → get d (codes "data") ≡ some v
      → IsNested v
      → Unique d
      → emit t record_repr now h s ≡ s
  emit-nested h s d v l f b m g n u =
      emit-sqlite h s d l f b m
      ∙ ap (λ rows. record s { rows = rows }) (insert-nested s.executes d v s.rows g n u)
