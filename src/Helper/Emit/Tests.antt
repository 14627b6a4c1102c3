-- ===== src/Helper/Emit/Tests.antt =====
-- Handlers and records to run the theorems on.
use honeypots.Prelude.{◌≡◌, refl, true, none, List, [], ◌∷◌, arith}
use honeypots.Python.Bytes.{bytes_eq, Text, codes}
use honeypots.Python.Value.{get, has, Fields, dict, fields, word, item}
use honeypots.Base.Samples.{server}
use honeypots.Helper.Filter.{Record, Texts}
use honeypots.Helper.Sqlite.{Row, is_encodable}
use honeypots.Helper.Sqlite.Rows.{a_dict}
use honeypots.Helper.Emit.{CustomHandler, State, emit}
use honeypots.Helper.Emit.Database.{emit-nested}
use honeypots.Session.{entries}
use honeypots.Helper.Emit.Trail.{AreRows, Attempt, check_each, emit_each, emit_each-check_each}

abbrev no_texts : Texts
no_texts = record { repr = λ n. []; float_text = λ n. []; bytes_repr = λ b. []; exn_repr = λ e. [] }

abbrev no_repr : Record → Text
no_repr r = []

abbrev now : Text
now = codes "2024-01-01"

abbrev on_database : CustomHandler
on_database = record { logs = codes "db_sqlite"; custom_filter = none; has_db = true }

abbrev state_of : Fields → State
state_of d = record {
  record_ = record { name = codes "log"; msg = dict d };
  executes = true;
  rows = [];
  lines = [];
}

abbrev entry : Fields
entry = fields (word "server" "ssh_server" ∷ word "action" "connection" ∷ [])

abbrev nested : Fields
nested =
    fields
      (word "server" "redis_server" ∷ item "data" (dict (fields (word "command" "PING" ∷ []))) ∷ [])

abbrev attempts : List Attempt
attempts =
    record { username = codes "root"; password = codes "toor"; ip = codes "10.0.0.1"; port = 4000 }
    ∷ record {
      username = codes "test";
      password = codes "test";
      ip = codes "10.0.0.2";
      port = 4001;
    }
    ∷ []

emit_each-check_each_example :
    (new : List Row) × (AreRows server attempts new)
    × ((emit_each no_texts no_repr
          (λ n. now)
          on_database
          (codes "log")
          0
          (entries (check_each server attempts tt).2)
          (state_of entry)).rows
        ≡ new)
    × ((emit_each no_texts no_repr
          (λ n. now)
          on_database
          (codes "log")
          0
          (entries (check_each server attempts tt).2)
          (state_of entry)).lines
        ≡ [])
unfolding is_encodable
emit_each-check_each_example =
    emit_each-check_each no_texts no_repr (λ n. now) on_database server (codes "log") attempts tt
      (state_of entry) refl refl refl refl
      (
        ((omega arith, omega arith), (refl, (refl, (refl, (refl, refl))))),
        (((omega arith, omega arith), (refl, (refl, (refl, (refl, refl))))), tt),
      )

emit-nested_example : emit no_texts no_repr now on_database (state_of nested) ≡ state_of nested
unfolding get has bytes_eq
emit-nested_example =
    emit-nested no_texts no_repr now on_database (state_of nested) nested
      (dict (fields (word "command" "PING" ∷ []))) refl refl refl refl refl
      (a_dict (fields (word "command" "PING" ∷ []))) (refl, (refl, tt))
