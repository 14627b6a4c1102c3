-- ===== src/Python/Value.antt =====
-- The values of a log entry, and the entry itself, a dictionary with text keys.
use honeypots.Prelude.{
  ℕ, Option, none, some, List, [], ◌∷◌, Bool, true, false, ◌≡◌, ◌∙◌, refl, arith, String,
  if◌then◌else◌, Bool-cases, inl, inr,
}
use honeypots.Python.Bytes.{Bytes, Text, codes, bytes_eq}
use honeypots.Python.Dict.{bytes_eq_iff}

-- `neg n` is the number -(n + 1); `float_` and `other` hold the number of an object that the model does not look into.
mutual
  pub data Value : Type 0 where
    null : Value
    bool : Bool → Value
    int : ℕ → Value
    neg : ℕ → Value
    float_ : ℕ → Value
    text : Text → Value
    bytes : Bytes → Value
    array : Items → Value
    dict : Fields → Value
    other : ℕ → Value

  pub data Fields : Type 0 where
    end : Fields
    field : Text → Value → Fields → Fields

  pub data Items : Type 0 where
    nil : Items
    cons : Value → Items → Items

-- A dictionary display of the source.
abbrev pub fields : List (Text × Value) → Fields
fields [] = end
fields ((k, v) ∷ l) = field k v (fields l)

-- The two commonest items of a display.
abbrev pub word : String → String → Text × Value
word k v = (codes k, text (codes v))

abbrev pub item : String → Value → Text × Value
item k v = (codes k, v)

unfoldable pub get : Fields → Text → Option Value
unfolding bytes_eq
get end k = none
get (field j v d) k = if bytes_eq j k then some v else get d k

unfoldable pub put : Fields → Text → Value → Fields
unfolding bytes_eq
put end k v = field k v end
put (field j w d) k v = if bytes_eq j k then field k v d else field j w (put d k v)

-- `d.update(new)` for a display `new`
unfoldable pub update : Fields → List (Text × Value) → Fields
unfolding put
update d [] = d
update d ((k, v) ∷ l) = update (put d k v) l

pub get-put :
    (d : Fields) (k j : Text) (v : Value)
    → get (put d k v) j ≡ (if bytes_eq k j then some v else get d j)
unfolding get put
get-put end k j v = refl
get-put (field i w d) k j v =
    ground (arith, bytes_eq_iff k j, bytes_eq_iff i k, bytes_eq_iff i j, get-put d k j v)

-- `k in d`
unfoldable pub has : Fields → Text → Bool
unfolding bytes_eq
has end k = false
has (field j v d) k = if bytes_eq j k then true else has d k

-- `d.pop(k, None)`: a dictionary has a key once
unfoldable pub remove : Fields → Text → Fields
unfolding bytes_eq
remove end k = end
remove (field j v d) k = if bytes_eq j k then remove d k else field j v (remove d k)

-- `{**d, **e}`
unfoldable pub merge : Fields → Fields → Fields
unfolding put
merge d end = d
merge d (field k v e) = merge (put d k v) e

pub get-remove :
    (d : Fields) (k j : Text) → get (remove d k) j ≡ (if bytes_eq k j then none else get d j)
unfolding get remove
get-remove end k j = ground arith
get-remove (field i w d) k j =
    ground (arith, bytes_eq_iff k j, bytes_eq_iff i k, bytes_eq_iff i j, get-remove d k j)

-- A key that neither dictionary has is not in the merged one.
pub get-merge_absent :
    (d e : Fields) (k : Text) → get d k ≡ none → get e k ≡ none → get (merge d e) k ≡ none
unfolding get merge
get-merge_absent d end k p q = p
get-merge_absent d (field j v e) k p q = elim (Bool-cases (bytes_eq j k)) [
  | inl t ↦ ground (arith, t)
  | inr t ↦ get-merge_absent (put d j v) e k (get-put d j k v ∙ rw t p) (ground (arith, t))
]

-- `k in d` holds exactly of the keys that `d.get` finds.
pub has-get : (d : Fields) (k : Text) → has d k ≡ false → get d k ≡ none
unfolding has get
has-get end k h = refl
has-get (field j v d) k h = ground (arith, has-get d k)
