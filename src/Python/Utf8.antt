-- ===== src/Python/Utf8.antt =====
-- `bytes.decode("utf-8", errors=...)` and `str.encode()`. The decoder is the machine that gives one
-- error for each maximal part of an ill-formed sequence, as CPython does.
pub mod RoundTrip
use honeypots.Prelude.{
  ℕ, zero, suc, ◌+◌, ◌-◌, ◌*◌, ◌/◌, ◌%◌, ◌&&◌, Option, none, some, List, [], ◌∷◌, ◌++◌, leb, ltb,
  ◌==◌, if◌then◌else◌,
}
use honeypots.Python.Bytes.{Bytes, Text}

-- Between characters, or inside one: the continuation bytes still wanted behind the next, the
-- range of the next, and the bits read so far.
pub data Decoder : Type 0 where
  start : Decoder
  inside : ℕ → ℕ → ℕ → ℕ → Decoder

-- `none` stands for one undecodable part.
unfoldable pub lead : ℕ → List (Option ℕ) × Decoder
lead b =
    if ltb b 0x80
    then (some b ∷ [], start)
    else if leb 0xc2 b && leb b 0xdf
    then ([], inside 0 0x80 0xbf (b - 0xc0))
    else if b == 0xe0
    then ([], inside 1 0xa0 0xbf 0)
    else if b == 0xed
    then ([], inside 1 0x80 0x9f 0xd)
    else if leb 0xe1 b && leb b 0xef
    then ([], inside 1 0x80 0xbf (b - 0xe0))
    else if b == 0xf0
    then ([], inside 2 0x90 0xbf 0)
    else if leb 0xf1 b && leb b 0xf3
    then ([], inside 2 0x80 0xbf (b - 0xf0))
    else if b == 0xf4
    then ([], inside 2 0x80 0x8f 4)
    else (none ∷ [], start)

abbrev after_error : List (Option ℕ) × Decoder → List (Option ℕ) × Decoder
after_error (out, d) = (none ∷ out, d)

unfoldable pub decode_step : Decoder → ℕ → List (Option ℕ) × Decoder
unfolding lead
decode_step start b = lead b
decode_step (inside zero lo hi acc) b =
    if leb lo b && leb b hi
    then (some (acc * 64 + (b - 0x80)) ∷ [], start)
    else after_error (lead b)
decode_step (inside (suc k) lo hi acc) b =
    if leb lo b && leb b hi
    then ([], inside k 0x80 0xbf (acc * 64 + (b - 0x80)))
    else after_error (lead b)

unfoldable pub decode_from : Decoder → Bytes → List (Option ℕ)
unfolding decode_step
decode_from start [] = []
decode_from (inside _ _ _ _) [] = none ∷ []
decode_from d (b ∷ bs) = let (out, d') = decode_step d b in out ++ decode_from d' bs

-- `errors="replace"`
unfoldable pub replace_errors : List (Option ℕ) → Text
replace_errors [] = []
replace_errors (none ∷ cs) = 0xfffd ∷ replace_errors cs
replace_errors (some c ∷ cs) = c ∷ replace_errors cs

-- `errors="ignore"`
unfoldable pub ignore_errors : List (Option ℕ) → Text
ignore_errors [] = []
ignore_errors (none ∷ cs) = ignore_errors cs
ignore_errors (some c ∷ cs) = c ∷ ignore_errors cs

-- `errors="strict"`, with `none` for `UnicodeDecodeError`
unfoldable pub strict_errors : List (Option ℕ) → Option Text
strict_errors [] = some []
strict_errors (none ∷ cs) = none
strict_errors (some c ∷ cs) = elim (strict_errors cs) [ none ↦ none | some s ↦ some (c ∷ s) ]

unfoldable pub decode_replace : Bytes → Text
unfolding decode_from replace_errors
decode_replace bs = replace_errors (decode_from start bs)

unfoldable pub decode_ignore : Bytes → Text
unfolding decode_from ignore_errors
decode_ignore bs = ignore_errors (decode_from start bs)

unfoldable pub decode : Bytes → Option Text
unfolding decode_from strict_errors
decode bs = strict_errors (decode_from start bs)

unfoldable pub encode_char : ℕ → Bytes
encode_char c =
    if ltb c 0x80
    then c ∷ []
    else if ltb c 0x800
    then (0xc0 + c / 64) ∷ (0x80 + c % 64) ∷ []
    else if ltb c 0x10000
    then (0xe0 + c / 4096) ∷ (0x80 + c / 64 % 64) ∷ (0x80 + c % 64) ∷ []
    else (0xf0 + c / 262144) ∷ (0x80 + c / 4096 % 64) ∷ (0x80 + c / 64 % 64) ∷ (0x80 + c % 64) ∷ []

-- `text.encode()`, for a text with no surrogate in it
unfoldable pub encode : Text → Bytes
unfolding encode_char
encode [] = []
encode (c ∷ cs) = encode_char c ++ encode cs
