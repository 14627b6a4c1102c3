-- ===== src/Ipp/Attributes/Total.antt =====
-- The loop over the attributes ends: every round moves the index forward.
use honeypots.Prelude.{
  ℕ, zero, suc, ◌+◌, ◌-◌, ◌≤◌, ◌<◌, ◌⊎◌, refl, ◌≡◌, ◌≢◌, inl, inr, Bool-cases, String, none, [],
  length, drop, arith,
}
use honeypots.Prelude.Int.{ℤ}
use honeypots.Python.Bytes.{Bytes, Text, bytes_eq, codes, slice}
use honeypots.Python.Result.{ok, key_error, of_option, Result-cases}
use honeypots.Python.Struct.{unpack_b, unpack_h, unpack_i}
use honeypots.Ipp.Reader.{get_uint8_t, get_uint16_t, get_uint32_t, get_string}
use honeypots.Ipp.Tables.{find_signed, attribute_syntaxes}
use honeypots.Ipp.Attributes.{
  Groups, Field, State, Round, more, stop, read_field, add_value, next_type, read_groups, round,
  loop, parse_attributes,
}

get_uint8_t-next : (i : ℕ) (d : Bytes) {j : ℕ} {v : ℤ} → get_uint8_t i d ≡ ok (j, v) → j ≡ i + 1
unfolding get_uint8_t
get_uint8_t-next i d h = elim (Result-cases (unpack_b (slice i (i + 1) d))) [
  | inl (b, e) ↦ ground (arith, e)
  | inr (x, e) ↦ ground (arith, e)
]

get_uint16_t-next : (i : ℕ) (d : Bytes) {j : ℕ} {v : ℕ} → get_uint16_t i d ≡ ok (j, v) → j ≡ i + 2
unfolding get_uint16_t
get_uint16_t-next i d h = elim (Result-cases (unpack_h (slice i (i + 2) d))) [
  | inl (b, e) ↦ ground (arith, e)
  | inr (x, e) ↦ ground (arith, e)
]

get_uint32_t-next : (i : ℕ) (d : Bytes) {j : ℕ} {v : ℕ} → get_uint32_t i d ≡ ok (j, v) → j ≡ i + 4
unfolding get_uint32_t
get_uint32_t-next i d h = elim (Result-cases (unpack_i (slice i (i + 4) d))) [
  | inl (b, e) ↦ ground (arith, e)
  | inr (x, e) ↦ ground (arith, e)
]

next_type-forward :
    (d : Bytes) (i : ℕ) (g : Groups) {s' : State} → next_type d i g ≡ more s' → i < s'.index
unfolding next_type
next_type-forward d i g {s'} h = elim (Result-cases (get_uint8_t i d)) [
  | inl ((j, v), e) ↦ ground (arith, e, get_uint8_t-next i d e)
  | inr (x, e) ↦ ground (arith, e)
]

read_field-forward :
    (d : Bytes) (i : ℕ) (s : String) {f : Field} → read_field d i s ≡ ok f → i ≤ f.index
unfolding read_field get_string
read_field-forward d i s {f} h = elim (Bool-cases (bytes_eq (codes s) (codes "integer"))) [
  | inl e ↦ elim (Result-cases (get_uint32_t i d)) [
    | inr (x, a) ↦ ground (arith, e, a)
    | inl ((j, n), a) ↦ ground (arith, e, a, get_uint32_t-next i d a)
  ]
  | inr e ↦ elim (Bool-cases (bytes_eq (codes s) (codes "boolean"))) [
    | inl e' ↦ elim (Result-cases (get_uint8_t i d)) [
      | inr (x, a) ↦ ground (arith, e, e', a)
      | inl ((j, n), a) ↦ ground (arith, e, e', a, get_uint8_t-next i d a)
    ]
    | inr e' ↦ elim (Result-cases (get_uint16_t i d)) [
      | inr (x, a) ↦ ground (arith, e, e', a)
      | inl ((j, n), a) ↦ elim (Result-cases (get_uint16_t (j + n) d)) [
        | inr (x, b) ↦ ground (arith, e, e', a, b)
        | inl ((k, m), b) ↦
            ground (arith, e, e', a, b, get_uint16_t-next i d a, get_uint16_t-next (j + n) d b)
      ]
    ]
  ]
]

read_groups-forward :
    (d : Bytes) (s : State) {i : ℕ} {g : Groups} → read_groups d s ≡ ok (i, g) → s.index ≤ i
unfolding read_groups
read_groups-forward d s {i} {g} h =
    elim (Result-cases (of_option key_error (find_signed attribute_syntaxes s.attr_type))) [
      | inr (x, e) ↦ ground (arith, e)
      | inl (sy, e) ↦ elim (Result-cases (read_field d s.index sy)) [
        | inr (x, e') ↦ ground (arith, e, e')
        | inl (f, e') ↦ elim (Result-cases (add_value s.groups f.attribute f.value)) [
          | inr (x, e2) ↦ ground (arith, e, e', e2)
          | inl (g', e2) ↦ ground (arith, e, e', e2, read_field-forward d s.index sy e')
        ]
      ]
    ]

round-forward : (d : Bytes) (s : State) {s' : State} → round d s ≡ more s' → s.index < s'.index
unfolding round
round-forward d s {s'} h = elim (Result-cases (read_groups d s)) [
  | inr (x, e) ↦ ground (arith, e)
  | inl ((i, g), e) ↦
      ground (arith, e, read_groups-forward d s e, next_type-forward d i g {s' = s'})
]

Round-cases :
    (r : Round) → ((g : Groups) × ((t : Text) × (r ≡ stop g t))) ⊎ ((s : State) × (r ≡ more s))
Round-cases (stop g t) = inl (g, (t, refl))
Round-cases (more s) = inr (s, refl)

loop_total :
    (fuel : ℕ) (d : Bytes) (n : ℕ) (s : State) → n - s.index < fuel → loop fuel d n s ≢ none
unfolding loop
loop_total zero d n s h = omega arith
loop_total (suc fuel) d n s h = elim (Round-cases (round d s)) [
  | inl (g, (t, e)) ↦ ground (arith, e)
  | inr (s', e) ↦ ground (arith, e, round-forward d s e, loop_total fuel d n s')
]

-- For every request, index and attribute type, `_parse_attributes` ends: the fuel it is given, one
-- more than the bytes behind the index, never runs out, whatever lengths the request declares.
pub parse_attributes_total :
    (data_ : Bytes) (index : ℕ) (attr_type : ℤ) → parse_attributes data_ index attr_type ≢ none
unfolding parse_attributes
parse_attributes_total d i a =
    loop_total (suc (length (drop i d))) d (length (drop i d))
      (record { index = i; attr_type = a; groups = [] }) (omega arith)
