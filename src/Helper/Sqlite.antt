-- ===== src/Helper/Sqlite.antt =====
-- `SqliteClass` of helper.py: the row that an entry becomes. A statement with a value that sqlite
-- does not take raises, and the exception is suppressed.
pub mod Rows
use honeypots.Prelude.{
  ℕ, suc, Bool, true, false, ◌&&◌, ◌||◌, leb, Option, none, some, List, [], ◌∷◌, ◌++◌, map, ltb,
  if◌then◌else◌,
}
use honeypots.Python.Bytes.{Text, codes}
use honeypots.Python.Value.{
  Value, Fields, null, bool, int, neg, float_, text, bytes, dict, word, item, fields, get, merge,
  end, field,
}

abbrev pub Row : Type 0
Row = List Value

-- `servers_table_template`
unfoldable pub servers_table_template : Fields
servers_table_template = fields (
    word "server" "servers_table"
    ∷ item "action" null
    ∷ item "status" null
    ∷ item "src_ip" null
    ∷ item "src_port" null
    ∷ item "username" null
    ∷ item "password" null
    ∷ item "dest_ip" null
    ∷ item "dest_port" null
    ∷ item "data" null
    ∷ item "error" null
    ∷ [])

-- the columns of the statement, in its order
unfoldable pub columns : List Text
columns =
    codes "server"
    ∷ codes "action"
    ∷ codes "status"
    ∷ codes "src_ip"
    ∷ codes "src_port"
    ∷ codes "dest_ip"
    ∷ codes "dest_port"
    ∷ codes "username"
    ∷ codes "password"
    ∷ codes "data"
    ∷ codes "error"
    ∷ []

abbrev pub is_null : Value → Bool
is_null null = true
is_null _ = false

-- `{k: v for k, v in obj.items() if v is not None}`
unfoldable pub without_none : Fields → Fields
without_none end = end
without_none (field k v d) = let rest = without_none d in if is_null v then rest else field k v rest

abbrev pub or_null : Option Value → Value
or_null none = null
or_null (some v) = v

-- `dict_[column]` for every column: the template has all of them.
unfoldable pub row_of : Fields → Row
unfolding servers_table_template columns without_none merge get
row_of d =
    let filled = merge servers_table_template (without_none d) in
    map (λ c. or_null (get filled c)) columns

-- A text that UTF-8 can encode: no character of it is a surrogate.
unfoldable pub is_encodable : Text → Bool
is_encodable [] = true
is_encodable (c ∷ cs) = (ltb c 0xd800 || leb 0xe000 c) && is_encodable cs

-- The values that the statement takes: an integer fits in 64 bits.
unfoldable pub is_bindable : Value → Bool
unfolding is_encodable
is_bindable null = true
is_bindable (bool b) = true
is_bindable (int n) = ltb n 0x8000000000000000
is_bindable (neg n) = ltb n 0x8000000000000000
is_bindable (float_ n) = true
is_bindable (text t) = is_encodable t
is_bindable (bytes b) = true
is_bindable _ = false

unfoldable pub all_bindable : Row → Bool
unfolding is_bindable
all_bindable [] = true
all_bindable (v ∷ vs) = is_bindable v && all_bindable vs

-- `insert_into_data_safe`: what is not a dictionary has no `items`. `executes` says whether the database
-- takes a statement: it does not where it is locked, full or closed, and then the row is lost.
unfoldable pub insert_into_data_safe : Bool → Value → List Row → List Row
unfolding row_of all_bindable
insert_into_data_safe executes (dict d) rows =
    if all_bindable (row_of d) && executes then rows ++ row_of d ∷ [] else rows
insert_into_data_safe executes v rows = rows
