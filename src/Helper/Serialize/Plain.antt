-- ===== src/Helper/Serialize/Plain.antt =====
-- What `serialize_object` leaves: dictionaries, lists and texts without a zero character.
use honeypots.Prelude.{ℕ, zero, suc, sym, ◌≡◌, ◌≢◌, refl, ap, ◌∙◌, arith, true, false, [], ◌∷◌}
use mathlib.Core.Path.{subst}
use honeypots.Python.Bytes.{Text, codes, replace, str}
use honeypots.Python.Utf8.{decode_ignore}
use honeypots.Python.Split.{Lacks, replace_head, replace_other}
use honeypots.Python.Digits.{IsDigits, str-IsDigits}
use honeypots.Python.Value.{
  Value, Items, Fields, null, bool, int, neg, float_, text, bytes, array, dict, other, nil, cons,
  end, field,
}
use honeypots.Helper.Serialize.{without_zero, serialize_object, serialize_items, serialize_fields}

without_zero_head : (t : Text) → without_zero (0 ∷ t) ≡ 32 ∷ without_zero t
unfolding without_zero
without_zero_head t = replace_head 0 [] (32 ∷ []) t

pub without_zero_other : (c : ℕ) (t : Text) → c ≢ 0 → without_zero (c ∷ t) ≡ c ∷ without_zero t
unfolding without_zero
without_zero_other c t h = replace_other 0 c [] (32 ∷ []) t h

without_zero-Lacks : (t : Text) → Lacks 0 (without_zero t)
without_zero-Lacks [] = unfold without_zero replace in tt
without_zero-Lacks (zero ∷ t) =
    subst (Lacks 0) (sym (without_zero_head t)) (omega arith, without_zero-Lacks t)
without_zero-Lacks (suc c ∷ t) =
    subst (Lacks 0) (sym (without_zero_other (suc c) t (omega arith)))
      (omega arith, without_zero-Lacks t)

without_zero_plain : (t : Text) → Lacks 0 t → without_zero t ≡ t
without_zero_plain [] h = unfold without_zero replace in refl
without_zero_plain (c ∷ t) h = without_zero_other c t h.0 ∙ ap (◌∷◌ c) (without_zero_plain t h.1)

digits-Lacks : (t : Text) → IsDigits t → Lacks 0 t
digits-Lacks [] h = tt
digits-Lacks (c ∷ t) h = (ground (arith, h.0), digits-Lacks t h.1)

-- Only texts without a zero, in lists and dictionaries.
unfoldable mutual
  pub IsPlain : Value → Type 0
  IsPlain (text t) = Lacks 0 t
  IsPlain (array vs) = ArePlain vs
  IsPlain (dict d) = HasPlain d
  IsPlain _ = ⊥

  pub ArePlain : Items → Type 0
  ArePlain nil = Unit {0}
  ArePlain (cons v vs) = IsPlain v × ArePlain vs

  HasPlain : Fields → Type 0
  HasPlain end = Unit {0}
  HasPlain (field k v d) = IsPlain v × HasPlain d

-- Python's text of a float has no zero character.
abbrev pub FloatsArePlain : (ℕ → Text) → Type 0
FloatsArePlain float_text = (n : ℕ) → Lacks 0 (float_text n)

module _ (repr float_text : ℕ → Text) where
  mutual
    unfolding serialize_object serialize_items serialize_fields IsPlain ArePlain HasPlain

    object-IsPlain :
        FloatsArePlain float_text → (v : Value) → IsPlain (serialize_object repr float_text v)
    object-IsPlain f null = without_zero-Lacks (codes "None")
    object-IsPlain f (bool true) = omega arith
    object-IsPlain f (bool false) = omega arith
    object-IsPlain f (int n) = digits-Lacks (str n) (str-IsDigits n)
    object-IsPlain f (neg n) = (omega arith, digits-Lacks (str (suc n)) (str-IsDigits (suc n)))
    object-IsPlain f (float_ n) = f n
    object-IsPlain f (text t) = without_zero-Lacks t
    object-IsPlain f (bytes b) = without_zero-Lacks (decode_ignore b)
    object-IsPlain f (array vs) = items-ArePlain f vs
    object-IsPlain f (dict d) = fields-HasPlain f d
    object-IsPlain f (other n) = without_zero-Lacks (repr n)

    items-ArePlain :
        FloatsArePlain float_text → (vs : Items) → ArePlain (serialize_items repr float_text vs)
    items-ArePlain f nil = tt
    items-ArePlain f (cons v vs) = (object-IsPlain f v, items-ArePlain f vs)

    fields-HasPlain :
        FloatsArePlain float_text → (d : Fields) → HasPlain (serialize_fields repr float_text d)
    fields-HasPlain f end = tt
    fields-HasPlain f (field k v d) = (object-IsPlain f v, fields-HasPlain f d)

  mutual
    unfolding serialize_object serialize_items serialize_fields IsPlain ArePlain HasPlain

    keep_object : (v : Value) → IsPlain v → serialize_object repr float_text v ≡ v
    keep_object null h = elim h [ ]
    keep_object (bool _) h = elim h [ ]
    keep_object (int _) h = elim h [ ]
    keep_object (neg _) h = elim h [ ]
    keep_object (float_ _) h = elim h [ ]
    keep_object (bytes _) h = elim h [ ]
    keep_object (other _) h = elim h [ ]
    keep_object (text t) h = ap text (without_zero_plain t h)
    keep_object (array vs) h = ap array (keep_items vs h)
    keep_object (dict d) h = ap dict (keep_fields d h)

    keep_items : (vs : Items) → ArePlain vs → serialize_items repr float_text vs ≡ vs
    keep_items nil h = refl
    keep_items (cons v vs) h =
        ap (λ w. cons w (serialize_items repr float_text vs)) (keep_object v h.0)
        ∙ ap (cons v) (keep_items vs h.1)

    keep_fields : (d : Fields) → HasPlain d → serialize_fields repr float_text d ≡ d
    keep_fields end h = refl
    keep_fields (field k v d) h =
        ap (λ w. field k w (serialize_fields repr float_text d)) (keep_object v h.0)
        ∙ ap (field k v) (keep_fields d h.1)

  -- Whatever is logged, `serialize_object` leaves only dictionaries, lists and texts, where no text that
  -- is a value has a zero character, and a second `serialize_object` changes nothing any more. The
  -- keys of dictionaries are not looked at, and may have one. The text of a float is assumed to have no
  -- zero character.
  pub serialize_object-IsPlain :
      FloatsArePlain float_text
      → (v : Value)
      → IsPlain (serialize_object repr float_text v)
        × (serialize_object repr float_text (serialize_object repr float_text v)
            ≡ serialize_object repr float_text v)
  serialize_object-IsPlain f v =
      (object-IsPlain f v, keep_object (serialize_object repr float_text v) (object-IsPlain f v))
