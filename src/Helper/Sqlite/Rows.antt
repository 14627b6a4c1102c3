-- ===== src/Helper/Sqlite/Rows.antt =====
-- The rows that the entries of the servers become.
use honeypots.Prelude.{
  ℕ, ◌≡◌, ◌<◌, refl, ap, ◌∙◌, sym, Bool, true, false, Bool-cases, inl, inr, some, map, take, List,
  [], ◌∷◌, ◌++◌, arith,
}
use honeypots.Python.Bytes.{Text, codes, bytes_eq}
use honeypots.Python.Value.{
  Value, Fields, Items, null, int, text, dict, array, get, put, update, merge, has, field, end,
  get-put,
}
use honeypots.Python.Dict.{bytes_eq_iff}
use honeypots.Base.{Server, login_is_correct, status_of}
use honeypots.Base.Login.{login_entry}
use honeypots.Helper.Sqlite.{
  Row, row_of, without_none, servers_table_template, columns, all_bindable, is_bindable,
  insert_into_data_safe, is_null, is_encodable, or_null,
}

-- the row of a login
abbrev pub login_row : Server → Text → Text → Text → ℕ → Row
login_row q u p ip port =
    text q.name
    ∷ text (codes "login")
    ∷ text (status_of (login_is_correct q u p))
    ∷ text ip
    ∷ int port
    ∷ text q.ip
    ∷ int q.port
    ∷ text u
    ∷ text p
    ∷ null
    ∷ null
    ∷ []

row_of-login :
    (q : Server) (u p ip : Text) (port : ℕ)
    → row_of (login_entry q u p ip port) ≡ login_row q u p ip port
unfolding row_of without_none servers_table_template columns merge get put update bytes_eq
row_of-login q u p ip port = refl

-- The ports have two bytes, and the texts can be encoded.
abbrev pub IsStorable : Server → Text → Text → Text → ℕ → Type 0
IsStorable q u p ip port =
    ((q.port < 65536) × (port < 65536))
    × ((is_encodable q.name ≡ true)
        × ((is_encodable q.ip ≡ true)
            × ((is_encodable u ≡ true) × ((is_encodable p ≡ true) × (is_encodable ip ≡ true)))))

login_row_bindable :
    (q : Server) (u p ip : Text) (port : ℕ)
    → IsStorable q u p ip port
    → all_bindable (login_row q u p ip port) ≡ true
unfolding all_bindable is_bindable is_encodable
login_row_bindable q u p ip port h = ground (arith, h)

insert-bindable :
    (d : Fields) (row : Row) (rows : List Row)
    → row_of d ≡ row
    → all_bindable row ≡ true
    → insert_into_data_safe true (dict d) rows ≡ rows ++ row ∷ []
unfolding insert_into_data_safe
insert-bindable d row rows h b = rw (ap all_bindable h ∙ b) (rw h refl)

pub insert-login :
    (q : Server) (u p ip : Text) (port : ℕ) (rows : List Row)
    → IsStorable q u p ip port
    → insert_into_data_safe true (dict (login_entry q u p ip port)) rows
      ≡ rows ++ login_row q u p ip port ∷ []
insert-login q u p ip port rows h =
    insert-bindable (login_entry q u p ip port) (login_row q u p ip port) rows
      (row_of-login q u p ip port) (login_row_bindable q u p ip port h)

-- The keys of a dictionary occur once.
abbrev pub Unique : Fields → Type 0
Unique end = Unit {0}
Unique (field k v d) = (has d k ≡ false) × Unique d

has-without_none : (d : Fields) (k : Text) → has d k ≡ false → has (without_none d) k ≡ false
unfolding has without_none
has-without_none end k h = refl
has-without_none (field j v d) k h = elim (Bool-cases (is_null v)) [
  | inl e ↦ rw e (has-without_none d k (ground (arith, h)))
  | inr e ↦ rw e (ground (arith, h, has-without_none d k))
]

without_none-Unique : (d : Fields) → Unique d → Unique (without_none d)
unfolding without_none
without_none-Unique end h = tt
without_none-Unique (field j v d) h = elim (Bool-cases (is_null v)) [
  | inl e ↦ rw e (without_none-Unique d h.1)
  | inr e ↦ rw e (has-without_none d j h.0, without_none-Unique d h.1)
]

get-without_none :
    (d : Fields) (k : Text) (v : Value)
    → is_null v ≡ false
    → get d k ≡ some v
    → Unique d
    → get (without_none d) k ≡ some v
unfolding get without_none
get-without_none end k v n g u = g
get-without_none (field j w d) k v n g u = elim (Bool-cases (bytes_eq j k)) [
  | inl e ↦
      let same : w ≡ v = ground (arith, e, g) in rw (ap is_null same ∙ n) (rw e (ap some same))
  | inr e ↦ elim (Bool-cases (is_null w)) [
    | inl m ↦ rw m (get-without_none d k v n (ground (arith, e, g)) u.1)
    | inr m ↦ rw m (rw e (get-without_none d k v n (ground (arith, e, g)) u.1))
  ]
]

get-merge_other : (d e : Fields) (k : Text) → has e k ≡ false → get (merge d e) k ≡ get d k
unfolding get merge has
get-merge_other d end k h = refl
get-merge_other d (field j w e) k h = elim (Bool-cases (bytes_eq j k)) [
  | inl t ↦ ground (arith, t, h)
  | inr t ↦ get-merge_other (put d j w) e k (ground (arith, t, h)) ∙ get-put d j k w ∙ rw t refl
]

-- the value of a key in the merged dictionary is that of the second one
get-merge :
    (d e : Fields) (k : Text) (v : Value) → get e k ≡ some v → Unique e → get (merge d e) k ≡ some v
unfolding get merge
get-merge d end k v g u = ground (arith, g)
get-merge d (field j w e) k v g u = elim (Bool-cases (bytes_eq j k)) [
  | inl t ↦
      get-merge_other (put d j w) e k (ap (has e) (sym ((bytes_eq_iff j k).0 t)) ∙ u.0)
      ∙ get-put d j k w
      ∙ rw t (ground (arith, t, g))
  | inr t ↦ get-merge (put d j w) e k v (ground (arith, t, g)) u.1
]

-- a dictionary or a list
pub data IsNested : Value → Type 0 where
  a_dict : (d : Fields) → IsNested (dict d)
  a_list : (vs : Items) → IsNested (array vs)

nested-not_null : (v : Value) → IsNested v → is_null v ≡ false
nested-not_null v (a_dict d) = refl
nested-not_null v (a_list vs) = refl

nested-not_bindable : (v : Value) → IsNested v → is_bindable v ≡ false
unfolding is_bindable
nested-not_bindable v (a_dict d) = refl
nested-not_bindable v (a_list vs) = refl

all_bindable_not :
    (before : Row) (v : Value) (after : Row)
    → is_bindable v ≡ false
    → all_bindable (before ++ v ∷ after) ≡ false
unfolding all_bindable
all_bindable_not [] v after h = ground (arith, h)
all_bindable_not (b ∷ before) v after h = ground (arith, all_bindable_not before v after h)

row_with_nested :
    (d : Fields) (v : Value)
    → get (merge servers_table_template (without_none d)) (codes "data") ≡ some v
    → IsNested v
    → all_bindable (row_of d) ≡ false
unfolding row_of columns
row_with_nested d v g n =
    let column : Text → Value =
      λ c. or_null (get (merge servers_table_template (without_none d)) c) in
    rw g (
      all_bindable_not (map column (take 9 columns)) v (column (codes "error") ∷ [])
        (nested-not_bindable v n))

-- A row with a dictionary or a list as its data is not stored, whatever the database takes.
pub insert-nested :
    (executes : Bool) (d : Fields) (v : Value) (rows : List Row)
    → get d (codes "data") ≡ some v
    → IsNested v
    → Unique d
    → insert_into_data_safe executes (dict d) rows ≡ rows
unfolding insert_into_data_safe
insert-nested executes d v rows g n u =
    rw
      (row_with_nested d v
        (get-merge servers_table_template (without_none d) (codes "data") v
          (get-without_none d (codes "data") v (nested-not_null v n) g u) (without_none-Unique d u))
        n)
      refl
