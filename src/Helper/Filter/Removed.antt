-- ===== src/Helper/Filter/Removed.antt =====
-- What the filters keep away from every handler, and what they leave out of the serialized message.
use honeypots.Prelude.{
  ℕ, ◌≡◌, ◌≢◌, refl, true, false, none, some, List, [], ◌∷◌, inl, inr, arith, Bool-cases,
}
use honeypots.Python.Bytes.{Text, codes, bytes_eq}
use honeypots.Python.Dict.{bytes_eq_iff}
use honeypots.Python.Result.{Result-cases}
use honeypots.Python.Value.{
  Value, Fields, text, dict, get, remove, merge, end, field, get-remove, get-merge_absent,
}
use honeypots.Helper.Serialize.{serialize_object, serialize_fields}
use honeypots.Helper.Filter.{
  Filters, Record, Texts, passes, member, drops_error, reshape, filter_fields, filter_message,
  apply_filters, filtered, remove_keys, remove_word_server, change_keys, stamped, after_filters,
  serialize_message,
}

remove_keys_keep :
    (ks : List Text) (d : Fields) (k : Text) → get d k ≡ none → get (remove_keys ks d) k ≡ none
unfolding remove_keys
remove_keys_keep [] d k h = h
remove_keys_keep (j ∷ ks) d k h =
    remove_keys_keep ks (remove d j) k (ground (arith, get-remove d j k, h))

remove_keys_absent :
    (ks : List Text) (d : Fields) (k : Text) → member k ks ≡ true → get (remove_keys ks d) k ≡ none
unfolding remove_keys member
remove_keys_absent [] d k h = ground (arith, h)
remove_keys_absent (j ∷ ks) d k h = elim (Bool-cases (bytes_eq k j)) [
  | inl e ↦
      remove_keys_keep ks (remove d j) k
        (ground (arith, get-remove d j k, bytes_eq_iff j k, bytes_eq_iff k j, e))
  | inr e ↦ remove_keys_absent ks (remove d j) k (ground (arith, e, h))
]

-- A message that passes `reshape` has none of the keys that the configuration removes.
reshape_absent :
    (f : Filters) (d e : Fields) (k : Text)
    → reshape f d ≡ (e, passes)
    → member k f.remove ≡ true
    → get e k ≡ none
unfolding reshape
reshape_absent f d e k h m = elim (Result-cases (remove_word_server f d)) [
  | inl (c, p) ↦ ground (arith, p, h, remove_keys_absent f.remove (change_keys f.change c) k m)
  | inr (x, p) ↦ ground (arith, p, h)
]

filter_fields_absent :
    (f : Filters) (d e : Fields) (k : Text)
    → filter_fields f d ≡ (e, passes)
    → member k f.remove ≡ true
    → get e k ≡ none
unfolding filter_fields
filter_fields_absent f d e k h m = ground (arith, h, reshape_absent f d e k)

get-serialize :
    (repr float_text : ℕ → Text) (d : Fields) (k : Text)
    → get d k ≡ none
    → get (serialize_fields repr float_text d) k ≡ none
unfolding serialize_fields get
get-serialize repr float_text end k h = refl
get-serialize repr float_text (field j v d) k h =
    ground (arith, h, get-serialize repr float_text d k)

-- the message of a dictionary with the time in front, serialized
abbrev pub stamped_entry : Texts → Text → Fields → Fields
stamped_entry t now e =
    serialize_fields t.repr t.float_text (merge (field (codes "timestamp") (text now) end) e)

stamped_entry_absent :
    (t : Texts) (now : Text) (e : Fields) (k : Text)
    → k ≢ codes "timestamp"
    → get e k ≡ none
    → get (stamped_entry t now e) k ≡ none
unfolding get
stamped_entry_absent t now e k n h =
    get-serialize t.repr t.float_text (merge (field (codes "timestamp") (text now) end) e) k (
      get-merge_absent (field (codes "timestamp") (text now) end) e k
        (ground (arith, n, bytes_eq_iff (codes "timestamp") k)) h)

filter_message_fields :
    (f : Filters) (d : Fields) (m : Value)
    → filter_message f (dict d) ≡ (m, passes)
    → (e : Fields) × ((m ≡ dict e) × (filter_fields f d ≡ (e, passes)))
unfolding filter_message
filter_message_fields f d m h = ((filter_fields f d).0, ground (arith, h))

apply_filters_fields :
    (f : Filters) (d : Fields) (m : Value)
    → apply_filters f (dict d) ≡ (m, passes)
    → (e : Fields) × ((m ≡ dict e) × (filter_fields f d ≡ (e, passes)))
unfolding apply_filters
apply_filters_fields f d m h = elim (Result-cases (drops_error f (dict d))) [
  | inl (true, p) ↦ ground (arith, p, h)
  | inl (false, p) ↦ filter_message_fields f d m (ground (arith, p, h))
  | inr (x, p) ↦ ground (arith, p, h)
]

-- Where the filters let a dictionary pass, the serialized message is a dictionary, and it has none of
-- the keys that the configuration removes, whatever else is changed in it; only the key `timestamp`,
-- which is added behind the filters, may be there.
pub serialize_message_removed :
    (t : Texts) (now : Text) (f : Filters) (r : Record) (d : Fields) (m : Value) (k : Text)
    → r.msg ≡ dict d
    → filtered (some f) r.msg ≡ (m, passes)
    → member k f.remove ≡ true
    → k ≢ codes "timestamp"
    → (out : Fields) × ((serialize_message t now (some f) r).1 ≡ some (dict out))
      × (get out k ≡ none)
unfolding serialize_message filtered after_filters stamped serialize_object
serialize_message_removed t now f r d m k is_dict pass removed other =
    let (e, (p, q)) = apply_filters_fields f d m (ground (arith, is_dict, pass)) in
    (
      stamped_entry t now e,
      ground (arith, pass, p),
      stamped_entry_absent t now e k other (filter_fields_absent f d e k q removed),
    )
