-- ===== src/Helper/Serialize.antt =====
-- `serialize_object` of helper.py. `repr` is that of the objects that the model does not look into,
-- `float_text` the text of a float.
pub mod Plain
use honeypots.Prelude.{ℕ, suc, true, false, [], ◌∷◌}
use honeypots.Python.Bytes.{Text, codes, replace, str}
use honeypots.Python.Utf8.{decode_ignore}
use honeypots.Python.Value.{
  Value, Items, Fields, null, bool, int, neg, float_, text, bytes, array, dict, other, nil, cons,
  end, field,
}

-- `obj.replace("\x00", " ")`
unfoldable pub without_zero : Text → Text
unfolding replace
without_zero = replace (0 ∷ []) (32 ∷ [])

module _ (repr float_text : ℕ → Text) where
  unfoldable mutual
    unfolding without_zero decode_ignore str

    pub serialize_object : Value → Value
    serialize_object null = text (without_zero (codes "None"))
    serialize_object (bool true) = text (codes "True")
    serialize_object (bool false) = text (codes "False")
    serialize_object (int n) = text (str n)
    serialize_object (neg n) = text (b'-' ∷ str (suc n))
    serialize_object (float_ n) = text (float_text n)
    serialize_object (text t) = text (without_zero t)
    serialize_object (bytes b) = text (without_zero (decode_ignore b))
    serialize_object (array vs) = array (serialize_items vs)
    serialize_object (dict d) = dict (serialize_fields d)
    serialize_object (other n) = text (without_zero (repr n))

    pub serialize_items : Items → Items
    serialize_items nil = nil
    serialize_items (cons v vs) = cons (serialize_object v) (serialize_items vs)

    pub serialize_fields : Fields → Fields
    serialize_fields end = end
    serialize_fields (field k v d) = field k (serialize_object v) (serialize_fields d)
