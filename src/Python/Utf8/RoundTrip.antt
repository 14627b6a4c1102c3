-- ===== src/Python/Utf8/RoundTrip.antt =====
-- Decoding what was encoded gives the text back, whichever error handler is used.
use honeypots.Prelude.{
  ℕ, List, Option, none, append_assoc, inl, inr, ◌≤◌, ◌<◌, ◌⊎◌, some, [], ◌∷◌, ◌++◌, ◌≡◌, refl, ap,
  ◌∙◌, arith, map, ltb, Bool-cases, All, All-append,
}
use honeypots.Python.Bytes.{Bytes, Text}
use honeypots.Python.Utf8.{
  start, decode_from, replace_errors, strict_errors, decode_replace, decode, encode_char, encode,
}

-- A code point that is no surrogate.
abbrev pub IsScalar : ℕ → Type 0
IsScalar c = (c < 0xd800) ⊎ ((0xe000 ≤ c) × (c < 0x110000))

decode-encode_one :
    (c : ℕ) (rest : Bytes)
    → c < 0x80
    → decode_from start (encode_char c ++ rest) ≡ some c ∷ decode_from start rest
unfolding decode_from encode_char
decode-encode_one c rest h = ground arith

decode-encode_two :
    (c : ℕ) (rest : Bytes)
    → 0x80 ≤ c
    → c < 0x800
    → decode_from start (encode_char c ++ rest) ≡ some c ∷ decode_from start rest
unfolding decode_from encode_char
decode-encode_two c rest l h = ground arith

decode-encode_three :
    (c : ℕ) (rest : Bytes)
    → 0x800 ≤ c
    → c < 0x10000
    → IsScalar c
    → decode_from start (encode_char c ++ rest) ≡ some c ∷ decode_from start rest
unfolding decode_from encode_char
decode-encode_three c rest l h s = ground arith

decode-encode_four :
    (c : ℕ) (rest : Bytes)
    → 0x10000 ≤ c
    → c < 0x110000
    → decode_from start (encode_char c ++ rest) ≡ some c ∷ decode_from start rest
unfolding decode_from encode_char
decode-encode_four c rest l h = ground arith

-- One encoded character is read back, whatever bytes follow.
decode-encode_char :
    (c : ℕ) (rest : Bytes)
    → IsScalar c
    → decode_from start (encode_char c ++ rest) ≡ some c ∷ decode_from start rest
decode-encode_char c rest s = elim (Bool-cases (ltb c 0x80)) [
  | inl one ↦ decode-encode_one c rest (ground arith)
  | inr more ↦ elim (Bool-cases (ltb c 0x800)) [
    | inl two ↦ decode-encode_two c rest (ground arith) (ground arith)
    | inr more' ↦ elim (Bool-cases (ltb c 0x10000)) [
      | inl three ↦ decode-encode_three c rest (ground arith) (ground arith) s
      | inr four ↦ decode-encode_four c rest (ground arith) (ground arith)
    ]
  ]
]

decode_from-encode : (s : Text) → All IsScalar s → decode_from start (encode s) ≡ map some s
unfolding decode_from encode
decode_from-encode [] h = refl
decode_from-encode (c ∷ cs) h =
    unfold encode in
    (decode-encode_char c (encode cs) h.0 ∙ ap (◌∷◌ (some c)) (decode_from-encode cs h.1))

replace_errors-map : (s : Text) → replace_errors (map some s) ≡ s
unfolding replace_errors
replace_errors-map [] = refl
replace_errors-map (c ∷ cs) = ap (◌∷◌ c) (replace_errors-map cs)

strict_errors-map : (s : Text) → strict_errors (map some s) ≡ some s
unfolding strict_errors
strict_errors-map [] = refl
strict_errors-map (c ∷ cs) = ground (arith, strict_errors-map cs)

-- A byte that no character begins with, and that continues none here.
abbrev pub IsStray : ℕ → Type 0
IsStray b = ((0x80 ≤ b) × (b < 0xc2)) ⊎ ((0xf5 ≤ b) × (b < 0x100))

decode_from-stray :
    (b : ℕ) (rest : Bytes)
    → IsStray b
    → decode_from start (b ∷ rest) ≡ none ∷ decode_from start rest
unfolding decode_from
decode_from-stray b rest h = ground (arith, h)

decode_from-encode_append :
    (s : Text) (rest : Bytes)
    → All IsScalar s
    → decode_from start (encode s ++ rest) ≡ map some s ++ decode_from start rest
unfolding encode
decode_from-encode_append [] rest h = refl
decode_from-encode_append (c ∷ cs) rest h =
    ap (decode_from start) (append_assoc (encode_char c) (encode cs) rest)
    ∙ decode-encode_char c (encode cs ++ rest) h.0
    ∙ ap (◌∷◌ (some c)) (decode_from-encode_append cs rest h.1)

replace_errors-append :
    (s : Text) (rest : List (Option ℕ))
    → replace_errors (map some s ++ rest) ≡ s ++ replace_errors rest
unfolding replace_errors
replace_errors-append [] rest = refl
replace_errors-append (c ∷ cs) rest = ap (◌∷◌ c) (replace_errors-append cs rest)

-- One stray byte between two encoded texts is read as one replacement character.
pub decode_replace-stray :
    (s t : Text) (b : ℕ)
    → All IsScalar s
    → All IsScalar t
    → IsStray b
    → decode_replace (encode s ++ b ∷ encode t) ≡ s ++ 0xfffd ∷ t
unfolding decode_replace replace_errors
decode_replace-stray s t b h k g =
    ap replace_errors (decode_from-encode_append s (b ∷ encode t) h)
    ∙ replace_errors-append s (decode_from start (b ∷ encode t))
    ∙ ap (λ r. s ++ replace_errors r)
        (decode_from-stray b (encode t) g ∙ ap (◌∷◌ none) (decode_from-encode t k))
    ∙ ap (λ r. s ++ 0xfffd ∷ r) (replace_errors-map t)

pub decode_replace-encode : (s : Text) → All IsScalar s → decode_replace (encode s) ≡ s
unfolding decode_replace
decode_replace-encode s h = ap replace_errors (decode_from-encode s h) ∙ replace_errors-map s

pub decode-encode : (s : Text) → All IsScalar s → decode (encode s) ≡ some s
unfolding decode
decode-encode s h = ap strict_errors (decode_from-encode s h) ∙ strict_errors-map s

abbrev pub IsAscii : Bytes → Type 0
IsAscii = All (λ b. b < 0x80)

decode_from_ascii : (s : Bytes) → IsAscii s → decode_from start s ≡ map some s
unfolding decode_from
decode_from_ascii [] h = refl
decode_from_ascii (c ∷ cs) h = ground (arith, decode_from_ascii cs h.1)

-- ASCII bytes are their own text.
pub decode_replace_ascii : (s : Bytes) → IsAscii s → decode_replace s ≡ s
unfolding decode_replace
decode_replace_ascii s h = ap replace_errors (decode_from_ascii s h) ∙ replace_errors-map s

pub decode_ascii : (s : Bytes) → IsAscii s → decode s ≡ some s
unfolding decode
decode_ascii s h = ap strict_errors (decode_from_ascii s h) ∙ strict_errors-map s

abbrev pub IsByte : ℕ → Type 0
IsByte b = b < 256

encode_char-IsByte : (c : ℕ) → IsScalar c → All IsByte (encode_char c)
unfolding encode_char
encode_char-IsByte c h = ground arith

pub encode-IsByte : (t : Text) → All IsScalar t → All IsByte (encode t)
unfolding encode
encode-IsByte [] h = tt
encode-IsByte (c ∷ t) h =
    All-append IsByte (encode_char c) (encode t) (encode_char-IsByte c h.0) (encode-IsByte t h.1)
