-- ===== src/Python/Query/RoundTrip.antt =====
-- A pair whose name and value are encoded in UTF-8 as a form is read back.
use honeypots.Prelude.{
  ℕ, Bool, Bool-cases, inl, inr, ◌==◌, ◌+◌, ◌/◌, ◌%◌, ◌<◌, ◌≡◌, ◌≢◌, ◌∙◌, refl, sym, ap, true, [],
  ◌∷◌, ◌++◌, All, All-append, append-nil, append_assoc, some, arith, ltb, if◌then◌else◌,
}
use honeypots.Python.Bytes.{Bytes, Text, codes}
use honeypots.Python.Utf8.{encode}
use honeypots.Python.Utf8.RoundTrip.{
  IsScalar, IsByte, IsAscii, encode-IsByte, decode_replace-encode,
}
use honeypots.Python.Split.{Lacks, split-append, split_last}
use honeypots.Python.Query.{
  unquote_bytes, unquote_run, unquote_from, unquote, plus_to_space, cut_equals, field_text, pair_of,
  pairs_of, parse_qsl,
}

abbrev upper_hex : ℕ → ℕ
upper_hex d = if ltb d 10 then 48 + d else 55 + d

-- How a form is encoded: a byte that `safe` holds of stands for itself, but a space is a plus sign, and
-- every other byte is a percent sign and two digits.
abbrev pub quote_with : (ℕ → Bool) → Bytes → Text
quote_with safe [] = []
quote_with safe (b ∷ bs) =
    let rest = quote_with safe bs in
    if safe b
    then (if b == 32 then 43 else b) ∷ rest
    else 37 ∷ upper_hex (b / 16) ∷ upper_hex (b % 16) ∷ rest

-- The bytes that stand for themselves are ASCII, and none of the four that are read in another way.
abbrev pub IsSafe : (ℕ → Bool) → Type 0
IsSafe safe = (b : ℕ) → safe b ≡ true → (b < 128) × ((b ≢ 37) × ((b ≢ 38) × ((b ≢ 43) × (b ≢ 61))))

-- the same, with the space as it is
abbrev spaced : (ℕ → Bool) → Bytes → Text
spaced safe [] = []
spaced safe (b ∷ bs) =
    let rest = spaced safe bs in
    if safe b then b ∷ rest else 37 ∷ upper_hex (b / 16) ∷ upper_hex (b % 16) ∷ rest

-- the characters of a name: ASCII, and none of the three that are read in another way
abbrev pub IsQuoted : Text → Type 0
IsQuoted = All (λ c. (c < 128) × ((c ≢ 43) × ((c ≢ 61) × (c ≢ 38))))

-- the characters of an encoded value
abbrev IsValue : Text → Type 0
IsValue = All (λ c. (c < 128) × (c ≢ 38))

upper_hex_quoted :
    (d : ℕ)
    → d < 16
    → (upper_hex d < 128) × ((upper_hex d ≢ 43) × ((upper_hex d ≢ 61) × (upper_hex d ≢ 38)))
upper_hex_quoted d h = ground (arith, h)

plus_to_space-quote_with :
    (safe : ℕ → Bool) (bs : Bytes)
    → IsSafe safe
    → All IsByte bs
    → plus_to_space (quote_with safe bs) ≡ spaced safe bs
unfolding plus_to_space
plus_to_space-quote_with safe [] g h = refl
plus_to_space-quote_with safe (b ∷ bs) g h = elim (Bool-cases (safe b)) [
  | inl e ↦ ground (arith, e, g b e, plus_to_space-quote_with safe bs g h.1)
  | inr e ↦
      let one = upper_hex_quoted (b / 16) (omega (arith, h.0)) in
      let two = upper_hex_quoted (b % 16) (omega arith) in
      ground (arith, e, one, two, plus_to_space-quote_with safe bs g h.1)
]

unquote_bytes-plain : (c : ℕ) (t : Bytes) → c ≢ 37 → unquote_bytes (c ∷ t) ≡ c ∷ unquote_bytes t
unfolding unquote_bytes
unquote_bytes-plain c [] h = refl
unquote_bytes-plain c (a ∷ []) h = refl
unquote_bytes-plain c (a ∷ b ∷ t) h = ground (arith, h)

unquote_bytes-percent :
    (b : ℕ) (t : Bytes)
    → b < 256
    → unquote_bytes (37 ∷ upper_hex (b / 16) ∷ upper_hex (b % 16) ∷ t) ≡ b ∷ unquote_bytes t
unfolding unquote_bytes
unquote_bytes-percent b t h = ground (arith, h)

unquote_bytes-spaced :
    (safe : ℕ → Bool) (bs : Bytes)
    → IsSafe safe
    → All IsByte bs
    → unquote_bytes (spaced safe bs) ≡ bs
unquote_bytes-spaced safe [] g h = unfold unquote_bytes in refl
unquote_bytes-spaced safe (b ∷ bs) g h = elim (Bool-cases (safe b)) [
  | inl e ↦ rw e (
      unquote_bytes-plain b (spaced safe bs) (g b e).1.0
      ∙ ap (◌∷◌ b) (unquote_bytes-spaced safe bs g h.1))
  | inr e ↦ rw e (
      unquote_bytes-percent b (spaced safe bs) h.0
      ∙ ap (◌∷◌ b) (unquote_bytes-spaced safe bs g h.1))
]

spaced-IsAscii :
    (safe : ℕ → Bool) (bs : Bytes) → IsSafe safe → All IsByte bs → IsAscii (spaced safe bs)
spaced-IsAscii safe [] g h = tt
spaced-IsAscii safe (b ∷ bs) g h = elim (Bool-cases (safe b)) [
  | inl e ↦ rw e ((g b e).0, spaced-IsAscii safe bs g h.1)
  | inr e ↦ rw e (
    ground arith,
    (
      (upper_hex_quoted (b / 16) (omega (arith, h.0))).0,
      ((upper_hex_quoted (b % 16) (omega arith)).0, spaced-IsAscii safe bs g h.1),
    ),
  )
]

plus_or :
    (b : ℕ)
    → (b < 128) × (b ≢ 38)
    → ((if b == 32 then 43 else b) < 128) × ((if b == 32 then 43 else b) ≢ 38)
plus_or b h = ground (arith, h)

quote_with-IsValue :
    (safe : ℕ → Bool) (bs : Bytes) → IsSafe safe → All IsByte bs → IsValue (quote_with safe bs)
quote_with-IsValue safe [] g h = tt
quote_with-IsValue safe (b ∷ bs) g h = elim (Bool-cases (safe b)) [
  | inl e ↦ rw e (plus_or b ((g b e).0, (g b e).1.1.0), quote_with-IsValue safe bs g h.1)
  | inr e ↦
      let one = upper_hex_quoted (b / 16) (omega (arith, h.0)) in
      let two = upper_hex_quoted (b % 16) (omega arith) in
      rw e (
        (ground arith, ground arith),
        ((one.0, one.1.1.1), ((two.0, two.1.1.1), quote_with-IsValue safe bs g h.1)),
      )
]

no_ampersand : (t : Text) → IsQuoted t → Lacks 38 t
no_ampersand [] h = tt
no_ampersand (c ∷ t) h = (h.0.1.1.1, no_ampersand t h.1)

value-Lacks : (t : Text) → IsValue t → Lacks 38 t
value-Lacks [] h = tt
value-Lacks (c ∷ t) h = (h.0.1, value-Lacks t h.1)

quoted-IsAscii : (t : Text) → IsQuoted t → IsAscii t
quoted-IsAscii [] h = tt
quoted-IsAscii (c ∷ t) h = (h.0.0, quoted-IsAscii t h.1)

value-IsAscii : (t : Text) → IsValue t → IsAscii t
value-IsAscii [] h = tt
value-IsAscii (c ∷ t) h = (h.0.0, value-IsAscii t h.1)

unquote_from_run : (run t : Text) → IsAscii t → unquote_from run t ≡ unquote_run (run ++ t)
unfolding unquote_from
unquote_from_run run [] h = rw append-nil refl
unquote_from_run run (c ∷ t) h =
    let low : ltb c 128 ≡ true = ground (arith, h.0) in
    rw (low, unquote_from)
      (unquote_from_run (run ++ c ∷ []) t h.1 ∙ ap unquote_run (append_assoc run (c ∷ []) t))

cut_equals-append : (a b : Text) → IsQuoted a → cut_equals (a ++ 61 ∷ b) ≡ some (a, b)
unfolding cut_equals
cut_equals-append [] b h = refl
cut_equals-append (c ∷ a) b h = ground (arith, h.0, cut_equals-append a b h.1)

pub field_text-quote :
    (safe : ℕ → Bool) (t : Text)
    → IsSafe safe
    → All IsScalar t
    → All IsByte (encode t)
    → field_text (quote_with safe (encode t)) ≡ t
unfolding field_text unquote unquote_run
field_text-quote safe t g h k = rw (plus_to_space-quote_with safe (encode t) g k) (
    unquote_from_run [] (spaced safe (encode t)) (spaced-IsAscii safe (encode t) g k)
    ∙ rw (unquote_bytes-spaced safe (encode t) g k) (decode_replace-encode t h))

-- the name of a field, the sign and the encoded value
abbrev pub quoted_pair : (ℕ → Bool) → Text → Text → Text
quoted_pair safe name value = name ++ 61 ∷ quote_with safe (encode value)

-- A name of plain characters, which stands for itself.
abbrev pub IsName : Text → Type 0
IsName name = IsQuoted name × (field_text name ≡ name)

field_text_empty : field_text [] ≡ []
unfolding field_text
field_text_empty = refl

pair_of-append :
    (name quoted value : Text)
    → IsName name
    → field_text quoted ≡ value
    → value ≢ []
    → pair_of (name ++ 61 ∷ quoted) ≡ (name, value) ∷ []
unfolding pair_of
pair_of-append name [] value n e v = absurd (v (sym e ∙ field_text_empty))
pair_of-append name (c ∷ quoted) value n e v =
    rw (cut_equals-append name (c ∷ quoted) n.0, pair_of) (rw (n.1, e) refl)

-- A value that can be sent: characters, at least one.
abbrev pub IsSent : Text → Type 0
IsSent t = All IsScalar t × (t ≢ [])

module _ (safe : ℕ → Bool) (g : IsSafe safe) where
  pair_of-quoted :
      (name value : Text)
      → IsName name
      → IsSent value
      → pair_of (quoted_pair safe name value) ≡ (name, value) ∷ []
  pair_of-quoted name value n v =
      pair_of-append name (quote_with safe (encode value)) value n
        (field_text-quote safe value g v.0 (encode-IsByte value v.0)) v.1

  quoted-IsValue : (value : Text) → IsSent value → IsValue (quote_with safe (encode value))
  quoted-IsValue value v = quote_with-IsValue safe (encode value) g (encode-IsByte value v.0)

  quoted_pair-Lacks :
      (name value : Text) → IsName name → IsSent value → Lacks 38 (quoted_pair safe name value)
  quoted_pair-Lacks name value n v =
      All-append (λ c. c ≢ 38) name (61 ∷ quote_with safe (encode value)) (no_ampersand name n.0)
        (omega arith, value-Lacks (quote_with safe (encode value)) (quoted-IsValue value v))

  -- Two fields, encoded and joined, are read as they are.
  pub parse_qsl-two :
      (name value name' value' : Text)
      → IsName name
      → IsSent value
      → IsName name'
      → IsSent value'
      → parse_qsl (quoted_pair safe name value ++ (codes "&" ++ quoted_pair safe name' value'))
        ≡ (name, value) ∷ (name', value') ∷ []
  unfolding parse_qsl pairs_of
  parse_qsl-two name value name' value' n v n' v' =
      rw
        (
          split-append 38 [] (quoted_pair safe name value) (quoted_pair safe name' value')
              (quoted_pair-Lacks name value n v),
          split_last 38 [] (quoted_pair safe name' value') (quoted_pair-Lacks name' value' n' v'),
        )
        (rw (pair_of-quoted name value n v, pair_of-quoted name' value' n' v') refl)

  -- The whole query is ASCII.
  pub quoted_pair-IsAscii :
      (name value : Text) → IsName name → IsSent value → IsAscii (quoted_pair safe name value)
  quoted_pair-IsAscii name value n v =
      All-append (λ c. c < 128) name (61 ∷ quote_with safe (encode value)) (quoted-IsAscii name n.0)
        (omega arith, value-IsAscii (quote_with safe (encode value)) (quoted-IsValue value v))
