-- ===== src/Helper/Filter.antt =====
-- `_serialize_message` and `_parse_record` of helper.py: the filters of the configuration, and what
-- they leave of the message of a record. The record is changed in place, and every handler of a
-- logger gets the same record.
pub mod Removed
pub mod Dropped
pub mod Line
mod Tests
use honeypots.Prelude.{
  ℕ, Bool, true, false, not, ◌&&◌, ◌||◌, Option, none, some, List, [], ◌∷◌, if◌then◌else◌,
}
use honeypots.Python.Bytes.{Text, codes, bytes_eq, find, replace}
use honeypots.Python.Dict.{Dict}
use honeypots.Python.Result.{Exn, Result, ok, raised}
use honeypots.Python.Json.{dumps}
use honeypots.Python.Value.{
  Value, Items, Fields, text, bytes, array, dict, nil, cons, fields, item, get, put, has, remove,
  merge, end, field,
}
use honeypots.Helper.Serialize.{serialize_object, without_zero}

-- `custom_filter["honeypots"]`, with what the source takes where an entry is missing.
pub record Filters : Type 0 where
  pub options : List Text
  pub change : Dict Text
  pub remove : List Text
  pub contains : Option (List Text)

-- The name and the message of a `LogRecord`.
pub record Record : Type 0 where
  pub name : Text
  pub msg : Value

unfoldable pub member : Text → List Text → Bool
unfolding bytes_eq
member t [] = false
member t (u ∷ l) = bytes_eq t u || member t l

abbrev is_text : Text → Option Value → Bool
is_text t (some (text u)) = bytes_eq t u
is_text t _ = false

unfoldable pub has_item : Text → Items → Bool
unfolding bytes_eq
has_item t nil = false
has_item t (cons v vs) = is_text t (some v) || has_item t vs

-- `word in record.msg`
unfoldable pub in_message : Text → Value → Result Bool
unfolding has has_item find
in_message w (dict d) = ok (has d w)
in_message w (array vs) = ok (has_item w vs)
in_message w (text t) = ok (elim (find w t) [ none ↦ false | some i ↦ true ])
in_message w _ = raised Exn.type_error

-- the test of `remove_errors`
unfoldable pub drops_error : Filters → Value → Result Bool
unfolding member in_message
drops_error f v =
    if member (codes "remove_errors") f.options then in_message (codes "error") v else ok false

-- `record.msg["server"].replace("_server", "")`
unfoldable pub rename_server : Fields → Option Value → Result Fields
unfolding replace put
rename_server d none = ok d
rename_server d (some (text t)) =
    ok (put d (codes "server") (text (replace (codes "_server") [] t)))
rename_server d (some (bytes b)) = raised Exn.type_error
rename_server d (some _) = raised Exn.attribute_error

unfoldable pub remove_word_server : Filters → Fields → Result Fields
unfolding member rename_server get
remove_word_server f d =
    if member (codes "remove_word_server") f.options
    then rename_server d (get d (codes "server"))
    else ok d

unfoldable pub change_key : Text → Text → Fields → Fields
unfolding get put remove
change_key old new d = elim (get d old) [ none ↦ d | some v ↦ put (remove d old) new v ]

unfoldable pub change_keys : Dict Text → Fields → Fields
unfolding change_key
change_keys [] d = d
change_keys ((old, new) ∷ c) d = change_keys c (change_key old new d)

unfoldable pub remove_keys : List Text → Fields → Fields
unfolding remove
remove_keys [] d = d
remove_keys (k ∷ ks) d = remove_keys ks (remove d k)

unfoldable pub has_all : List Text → Fields → Bool
unfolding has
has_all [] d = true
has_all (k ∷ ks) d = has d k && has_all ks d

abbrev is_complete : Option (List Text) → Fields → Bool
is_complete none d = true
is_complete (some ks) d = has_all ks d

-- What becomes of a message: it goes on, it is dropped, or the filter raises.
pub data Verdict : Type 0 where
  passes dropped : Verdict
  fails : Exn → Verdict

-- From the line of `remove_word_server` on.
unfoldable pub reshape : Filters → Fields → Fields × Verdict
unfolding remove_word_server change_keys remove_keys has_all
reshape f d = elim (remove_word_server f d) [
  | raised e ↦ (d, fails e)
  | ok e ↦
      let kept = remove_keys f.remove (change_keys f.change e) in
      (kept, if is_complete f.contains kept then passes else dropped)
]

unfoldable pub filter_fields : Filters → Fields → Fields × Verdict
unfolding member reshape get
filter_fields f d =
    if member (codes "remove_init") f.options && is_text (codes "process") (get d (codes "action"))
    then (d, dropped)
    else reshape f d

unfoldable pub filter_message : Filters → Value → Value × Verdict
unfolding filter_fields
filter_message f (dict d) = let (e, v) = filter_fields f d in (dict e, v)
filter_message f v = (v, passes)

unfoldable pub apply_filters : Filters → Value → Value × Verdict
unfolding drops_error filter_message
apply_filters f v = elim (drops_error f v) [
  | raised e ↦ (v, fails e)
  | ok true ↦ (v, dropped)
  | ok false ↦ filter_message f v
]

-- `custom_filter` is none, or not empty.
unfoldable pub filtered : Option Filters → Value → Value × Verdict
unfolding apply_filters
filtered none v = (v, passes)
filtered (some f) v = apply_filters f v

-- `{"timestamp": ..., **record.msg}`
unfoldable pub stamped : Text → Value → Value
unfolding merge
stamped now (dict d) = dict (merge (field (codes "timestamp") (text now) end) d)
stamped now v = v

-- `not serialized_msg` for what `serialize_object` gives
abbrev pub is_empty : Value → Bool
is_empty (text []) = true
is_empty (array nil) = true
is_empty (dict end) = true
is_empty _ = false

-- The three values of `type_`; the branch of `db_postgres` is empty.
pub data Target : Type 0 where
  file db_sqlite terminal : Target

abbrev pub dumps_to_file : Option Filters → Bool
dumps_to_file none = false
dumps_to_file (some f) = member (codes "dump_json_to_file") f.options

-- The texts that Python gives for an object, a float, bytes and an exception.
pub record Texts : Type 0 where
  pub repr : ℕ → Text
  pub float_text : ℕ → Text
  pub bytes_repr : Text → Text
  pub exn_repr : Exn → Text

-- `ComplexEncoder.default`
unfoldable pub encoder_default : Texts → Value → Text
unfolding without_zero
encoder_default t (bytes b) = without_zero (t.bytes_repr b)
encoder_default t (Value.other n) = without_zero (t.repr n)
encoder_default t v = []

module _ (t : Texts) where
  unfoldable pub dump_json : Value → Text
  unfolding dumps encoder_default
  dump_json = dumps (encoder_default t) t.float_text

  unfoldable pub after_filters : Text → Record → Value × Verdict → Record × Option Value
  unfolding serialize_object stamped
  after_filters now r (m, dropped) = (record r { msg = m }, none)
  after_filters now r (m, passes) =
      (record r { msg = m }, some (serialize_object t.repr t.float_text (stamped now m)))
  after_filters now r (m, fails e) = (
    record r { msg = m },
    some (
        serialize_object t.repr t.float_text
          (dict (fields (item "name" (text r.name) ∷ item "error" (text (t.exn_repr e)) ∷ [])))),
  )

  unfoldable pub serialize_message : Text → Option Filters → Record → Record × Option Value
  unfolding filtered after_filters
  serialize_message now f r = after_filters now r (filtered f r.msg)

  -- The replacement of `data` and `error` for a database is made on the serialized message, which
  -- is not used any more.
  unfoldable pub written : Option Filters → Target → Record → Value → Record
  unfolding dump_json member
  written f file r v = if dumps_to_file f then record r { msg = text (dump_json v) } else r
  written f db_sqlite r v = r
  written f terminal r v = record r { msg = text (dump_json v) }

  -- The record as it is afterwards, and whether it is handed on.
  unfoldable pub parse_record : Text → Option Filters → Target → Record → Record × Bool
  unfolding serialize_message written
  parse_record now f target r =
      let (r', s) = serialize_message now f r in
      elim s [
        | none ↦ (r', false)
        | some v ↦ if is_empty v then (r', false) else (written f target r' v, true)
      ]
