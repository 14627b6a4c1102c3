-- ===== src/Python/Json/Printable.antt =====
-- What `json.dumps` writes: printable characters of ASCII only.
use honeypots.Prelude.{
  ℕ, suc, ◌+◌, ◌-◌, ◌/◌, ◌%◌, ◌≤◌, ◌<◌, ◌≡◌, true, false, List, [], ◌∷◌, ◌++◌, map, All, All-append,
  arith, Bool-cases, Option-cases, some, inl, inr, ltb,
}
use honeypots.Python.Bytes.{Text, codes, hex, join, str}
use honeypots.Python.Digits.{IsDigits, str-IsDigits}
use honeypots.Python.Value.{
  Value, Items, Fields, null, bool, int, neg, float_, text, bytes, array, dict, other, nil, cons,
  end, field,
}
use honeypots.Python.Json.{
  is_printable, short_escape, escape_unit, escape_wide, escape, escape_all, quoted, text_leb, Item,
  insert_item, sort_items, item_text, braces, brackets, dumps, dump_items, dump_fields,
}

abbrev pub IsPrintable : Text → Type 0
IsPrintable = All (λ c. (32 ≤ c) × (c < 127))

joined : (a b : Text) → IsPrintable a → IsPrintable b → IsPrintable (a ++ b)
joined = All-append (λ (c : ℕ). (32 ≤ c) × (c < 127))

hex_pair-IsPrintable : (b : ℕ) → b < 256 → IsPrintable (hex (b ∷ []))
unfolding hex
hex_pair-IsPrintable b h = ground arith

escape_unit-IsPrintable : (c : ℕ) → c < 65536 → IsPrintable (escape_unit c)
unfolding escape_unit hex
escape_unit-IsPrintable c h = ground arith

escape_wide-IsPrintable : (c : ℕ) → IsPrintable (escape_wide c)
unfolding escape_wide
escape_wide-IsPrintable c = elim (Bool-cases (ltb c 0x10000)) [
  | inl e ↦ rw e (escape_unit-IsPrintable c (ground (arith, e)))
  | inr e ↦
      let high = 0xd800 + (c - 0x10000) / 0x400 % 0x400 in
      let low = 0xdc00 + (c - 0x10000) % 0x400 in
      rw e (
        joined (escape_unit high) (escape_unit low) (escape_unit-IsPrintable high (omega arith))
          (escape_unit-IsPrintable low (omega arith)))
]

short_escape_printable : (c d : ℕ) → short_escape c ≡ some d → (32 ≤ d) × (d < 127)
unfolding short_escape
short_escape_printable c d h = ground arith

escape-IsPrintable : (c : ℕ) → IsPrintable (escape c)
unfolding escape
escape-IsPrintable c = elim (Option-cases (short_escape c)) [
  | inr (d, e) ↦ rw (e, escape) (omega arith, (short_escape_printable c d e, tt))
  | inl e ↦
      rw (e, escape)
        (elim (Bool-cases (is_printable c)) [
          | inl p ↦ rw p (ground (arith, p), tt)
          | inr p ↦ rw p (escape_wide-IsPrintable c)
        ])
]

escape_all-IsPrintable : (t : Text) → IsPrintable (escape_all t)
unfolding escape_all
escape_all-IsPrintable [] = tt
escape_all-IsPrintable (c ∷ t) =
    joined (escape c) (escape_all t) (escape-IsPrintable c) (escape_all-IsPrintable t)

quoted-IsPrintable : (t : Text) → IsPrintable (quoted t)
unfolding quoted
quoted-IsPrintable t =
    (omega arith, joined (escape_all t) _ (escape_all-IsPrintable t) (omega arith))

digits-IsPrintable : (t : Text) → IsDigits t → IsPrintable t
digits-IsPrintable [] h = tt
digits-IsPrintable (c ∷ t) h = ((omega (arith, h.0), omega (arith, h.0)), digits-IsPrintable t h.1)

joined_three :
    (a b c : Text) → IsPrintable a → IsPrintable b → IsPrintable c → IsPrintable (a ++ b ++ c)
joined_three a b c p q r = joined (a ++ b) c (joined a b p q) r

join-IsPrintable :
    (sep : Text) (l : List Text) → IsPrintable sep → All IsPrintable l → IsPrintable (join sep l)
unfolding join
join-IsPrintable sep [] s h = tt
join-IsPrintable sep (t ∷ []) s h = h.0
join-IsPrintable sep (t ∷ u ∷ l) s h =
    joined_three t sep (join sep (u ∷ l)) h.0 s (join-IsPrintable sep (u ∷ l) s h.1)

abbrev PrintableItem : Item → Type 0
PrintableItem i = IsPrintable (i.1)

insert_item_printable :
    (i : Item) (l : List Item)
    → PrintableItem i
    → All PrintableItem l
    → All PrintableItem (insert_item i l)
unfolding insert_item
insert_item_printable i [] p h = (p, tt)
insert_item_printable i (j ∷ l) p h = elim (Bool-cases (text_leb (i.0) (j.0))) [
  | inl e ↦ rw e (p, h)
  | inr e ↦ rw e (h.0, insert_item_printable i l p h.1)
]

sort_items_printable : (l : List Item) → All PrintableItem l → All PrintableItem (sort_items l)
unfolding sort_items
sort_items_printable [] h = tt
sort_items_printable (i ∷ l) h =
    insert_item_printable i (sort_items l) h.0 (sort_items_printable l h.1)

item_texts-IsPrintable : (l : List Item) → All PrintableItem l → All IsPrintable (map item_text l)
unfolding item_text
item_texts-IsPrintable [] h = tt
item_texts-IsPrintable (i ∷ l) h = (
  joined_three (quoted (i.0)) (codes ": ") (i.1) (quoted-IsPrintable (i.0)) (omega arith) h.0,
  item_texts-IsPrintable l h.1,
)

-- The text of a float is printable.
abbrev pub FloatsArePrintable : (ℕ → Text) → Type 0
FloatsArePrintable float_text = (n : ℕ) → IsPrintable (float_text n)

module _ (default : Value → Text) (float_text : ℕ → Text) (f : FloatsArePrintable float_text) where
  mutual
    unfolding dumps dump_items dump_fields braces brackets

    pub dumps-IsPrintable : (v : Value) → IsPrintable (dumps default float_text v)
    dumps-IsPrintable null = omega arith
    dumps-IsPrintable (bool true) = omega arith
    dumps-IsPrintable (bool false) = omega arith
    dumps-IsPrintable (int n) = digits-IsPrintable (str n) (str-IsDigits n)
    dumps-IsPrintable (neg n) =
        (omega arith, digits-IsPrintable (str (suc n)) (str-IsDigits (suc n)))
    dumps-IsPrintable (float_ n) = f n
    dumps-IsPrintable (text t) = quoted-IsPrintable t
    dumps-IsPrintable (bytes b) = quoted-IsPrintable (default (bytes b))
    dumps-IsPrintable (array vs) = (
      omega arith,
      joined (join (codes ", ") (dump_items default float_text vs)) _
          (join-IsPrintable (codes ", ") _ (omega arith) (items-IsPrintable vs)) (omega arith),
    )
    dumps-IsPrintable (dict d) = (
      omega arith,
      joined (join (codes ", ") (map item_text (sort_items (dump_fields default float_text d)))) _
          (join-IsPrintable (codes ", ") _ (omega arith)
            (item_texts-IsPrintable _ (sort_items_printable _ (fields_printable d))))
          (omega arith),
    )
    dumps-IsPrintable (other n) = quoted-IsPrintable (default (other n))

    items-IsPrintable : (vs : Items) → All IsPrintable (dump_items default float_text vs)
    items-IsPrintable nil = tt
    items-IsPrintable (cons v vs) = (dumps-IsPrintable v, items-IsPrintable vs)

    fields_printable : (d : Fields) → All PrintableItem (dump_fields default float_text d)
    fields_printable end = tt
    fields_printable (field k v d) = (dumps-IsPrintable v, fields_printable d)
