-- ===== src/Python/Json.antt =====
-- `json.dumps(value, sort_keys=True)`, as the loggers call it.
pub mod Printable
use honeypots.Prelude.{
  ℕ, suc, ◌+◌, ◌-◌, ◌/◌, ◌%◌, Bool, true, false, ◌&&◌, ◌||◌, Option, none, some, List, [], ◌∷◌,
  ◌++◌, map, ltb, leb, ◌==◌, if◌then◌else◌,
}
use honeypots.Python.Bytes.{Bytes, Text, codes, hex, join, str}
use honeypots.Python.Value.{
  Value, Items, Fields, null, bool, int, neg, float_, text, bytes, array, dict, other, nil, cons,
  end, field,
}

abbrev pub quote : ℕ
quote = 34

abbrev pub backslash : ℕ
backslash = 92

-- the four hexadecimal digits of a code below 2 ^ 16
unfoldable pub escape_unit : ℕ → Text
unfolding hex
escape_unit c = backslash ∷ b'u' ∷ hex (c / 256 ∷ c % 256 ∷ [])

-- A character outside of ASCII as one unit, or as a surrogate pair.
unfoldable pub escape_wide : ℕ → Text
unfolding escape_unit
escape_wide c =
    if ltb c 0x10000
    then escape_unit c
    else escape_unit (0xd800 + (c - 0x10000) / 0x400 % 0x400)
      ++ escape_unit (0xdc00 + (c - 0x10000) % 0x400)

abbrev pub is_printable : ℕ → Bool
is_printable c = leb 32 c && ltb c 127

-- The characters that are written as a backslash and one character.
unfoldable pub short_escape : ℕ → Option ℕ
short_escape c =
    if c == quote
    then some quote
    else if c == backslash
    then some backslash
    else if c == 10
    then some b'n'
    else if c == 13
    then some b'r'
    else if c == 9
    then some b't'
    else if c == 12
    then some b'f'
    else if c == 8
    then some b'b'
    else none

unfoldable pub escape : ℕ → Text
unfolding short_escape escape_wide
escape c = elim (short_escape c) [
  | some d ↦ backslash ∷ d ∷ []
  | none ↦ if is_printable c then c ∷ [] else escape_wide c
]

unfoldable pub escape_all : Text → Text
unfolding escape
escape_all [] = []
escape_all (c ∷ t) = escape c ++ escape_all t

unfoldable pub quoted : Text → Text
unfolding escape_all
quoted t = quote ∷ escape_all t ++ quote ∷ []

-- `a <= b` on texts, by their code points
unfoldable pub text_leb : Text → Text → Bool
text_leb [] b = true
text_leb (x ∷ a) [] = false
text_leb (x ∷ a) (y ∷ b) = ltb x y || x == y && text_leb a b

abbrev pub Item : Type 0
Item = Text × Text

unfoldable pub insert_item : Item → List Item → List Item
unfolding text_leb
insert_item i [] = i ∷ []
insert_item i (j ∷ l) =
    let rest = insert_item i l in if text_leb (i.0) (j.0) then i ∷ j ∷ l else j ∷ rest

unfoldable pub sort_items : List Item → List Item
unfolding insert_item
sort_items [] = []
sort_items (i ∷ l) = insert_item i (sort_items l)

unfoldable pub item_text : Item → Text
unfolding quoted
item_text i = quoted (i.0) ++ codes ": " ++ i.1

unfoldable pub braces : List Item → Text
unfolding item_text join
braces l = b'{' ∷ join (codes ", ") (map item_text l) ++ b'}' ∷ []

unfoldable pub brackets : List Text → Text
unfolding join
brackets l = b'[' ∷ join (codes ", ") l ++ b']' ∷ []

-- `float_text` is the text of a float; `default` gives the text for what JSON does not know.
module _ (default : Value → Text) (float_text : ℕ → Text) where
  unfoldable mutual
    unfolding quoted braces brackets sort_items str

    pub dumps : Value → Text
    dumps null = codes "null"
    dumps (bool true) = codes "true"
    dumps (bool false) = codes "false"
    dumps (int n) = str n
    dumps (neg n) = b'-' ∷ str (suc n)
    dumps (float_ n) = float_text n
    dumps (text t) = quoted t
    dumps (bytes b) = quoted (default (bytes b))
    dumps (array vs) = brackets (dump_items vs)
    dumps (dict d) = braces (sort_items (dump_fields d))
    dumps (other n) = quoted (default (other n))

    pub dump_items : Items → List Text
    dump_items nil = []
    dump_items (cons v vs) = dumps v ∷ dump_items vs

    pub dump_fields : Fields → List Item
    dump_fields end = []
    dump_fields (field k v d) = (k, dumps v) ∷ dump_fields d
