-- ===== src/Python/Base64.antt =====
-- `b64encode` and `b64decode` without strictness: what is not in the alphabet is passed over.
pub mod RoundTrip
use honeypots.Prelude.{
  ℕ, zero, suc, ◌+◌, ◌-◌, ◌*◌, ◌/◌, ◌%◌, Bool, true, false, ◌&&◌, ◌||◌, Option, none, some, List,
  [], ◌∷◌, leb, ltb, ◌==◌, if◌then◌else◌,
}
use mathlib.Core.Option
use honeypots.Python.Bytes.{Bytes, Text}
use honeypots.Python.Result.{Result, ok, raised, Exn}

-- the character of a number below 64
unfoldable pub sixbit : ℕ → ℕ
sixbit n =
    if ltb n 26
    then n + b'A'
    else if ltb n 52
    then n - 26 + b'a'
    else if ltb n 62
    then n - 52 + b'0'
    else if n == 62
    then b'+'
    else b'/'

-- the number of a character, 64 for one outside of the alphabet
unfoldable pub unsixbit : ℕ → ℕ
unsixbit c =
    if leb b'A' c && leb c b'Z'
    then c - b'A'
    else if leb b'a' c && leb c b'z'
    then c - b'a' + 26
    else if leb b'0' c && leb c b'9'
    then c - b'0' + 52
    else if c == b'+'
    then 62
    else if c == b'/'
    then 63
    else 64

unfoldable pub b64encode : Bytes → Text
unfolding sixbit
b64encode [] = []
b64encode (a ∷ []) = sixbit (a / 4) ∷ sixbit (a % 4 * 16) ∷ b'=' ∷ b'=' ∷ []
b64encode (a ∷ b ∷ []) =
    sixbit (a / 4) ∷ sixbit (a % 4 * 16 + b / 16) ∷ sixbit (b % 16 * 4) ∷ b'=' ∷ []
b64encode (a ∷ b ∷ c ∷ rest) =
    sixbit (a / 4)
    ∷ sixbit (a % 4 * 16 + b / 16)
    ∷ sixbit (b % 16 * 4 + c / 64)
    ∷ sixbit (c % 64)
    ∷ b64encode rest

-- How many characters of a group of four were read, the bits left of the last one, and the
-- padding characters since then.
pub record Group : Type 0 where
  pub quad : ℕ
  pub left : ℕ
  pub pads : ℕ

abbrev pub empty_group : Group
empty_group = record { quad = 0; left = 0; pads = 0 }

-- a character of the alphabet with the number v: the byte that it completes, and the group
unfoldable pub take_bits : Group → ℕ → Option ℕ × Group
take_bits g v =
    if g.quad == 0
    then (none, record { quad = 1; left = v; pads = 0 })
    else if g.quad == 1
    then (some (g.left * 4 + v / 16), record { quad = 2; left = v % 16; pads = 0 })
    else if g.quad == 2
    then (some (g.left * 16 + v / 4), record { quad = 3; left = v % 4; pads = 0 })
    else (some (g.left * 64 + v), empty_group)

abbrev onto : Option ℕ → Result Bytes → Result Bytes
onto none r = r
onto (some b) (ok bs) = ok (b ∷ bs)
onto (some b) (raised e) = raised e

-- The rest of the text. Enough padding ends it, whatever follows.
unfoldable pub decode_from : Group → Text → Result Bytes
unfolding unsixbit take_bits
decode_from g [] = if g.quad == 0 then ok [] else raised Exn.value_error
decode_from g (c ∷ cs) = elim (c == b'=') [
  | true ↦ elim (leb 2 g.quad && leb 4 (g.quad + g.pads + 1)) [
    | true ↦ ok []
    | false ↦ decode_from (record g { pads = if leb 2 g.quad then g.pads + 1 else g.pads }) cs
  ]
  | false ↦ elim (unsixbit c == 64) [
    | true ↦ decode_from g cs
    | false ↦ let (o, h) = take_bits g (unsixbit c) in onto o (decode_from h cs)
  ]
]

unfoldable pub is_ascii : Text → Bool
is_ascii [] = true
is_ascii (c ∷ cs) = ltb c 128 && is_ascii cs

-- `b64decode(text)`, which takes ASCII only
unfoldable pub b64decode : Text → Result Bytes
unfolding is_ascii decode_from
b64decode t = if is_ascii t then decode_from empty_group t else raised Exn.value_error
