-- ===== src/Vnc/Passwords.antt =====
-- `encode`, `decode` and the table of known passwords of vnc_server.py.
pub mod Table
use honeypots.Prelude.{
  ℕ, zero, suc, ◌+◌, ◌*◌, ◌/◌, ◌%◌, Option, List, [], ◌∷◌, ◌++◌, length, take, replicate, ltb, ◌-◌,
  ◌==◌, if◌then◌else◌,
}
use honeypots.Python.Bytes.{Bytes, Text, codes, unhex, replace}
use honeypots.Python.Dict.{Dict, get, put}
use honeypots.Python.Result.{Result, ok, raised, ◌>>=◌, value_error}

unfoldable pub challenge : Bytes
unfolding unhex
challenge = unhex (codes "00000000901234567890123456789012")

-- `text.strip("\n")` at the left and at the right
unfoldable pub strip_newlines_left : Text → Text
strip_newlines_left [] = []
strip_newlines_left (c ∷ cs) =
    let rest = strip_newlines_left cs in if c == b'\n' then rest else c ∷ cs

unfoldable pub strip_newlines_right : Text → Text
strip_newlines_right [] = []
strip_newlines_right (c ∷ cs) = elim (strip_newlines_right cs) [
  | [] ↦ if c == b'\n' then [] else c ∷ []
  | d ∷ ds ↦ c ∷ d ∷ ds
]

unfoldable pub strip_newlines : Text → Text
unfolding strip_newlines_left strip_newlines_right
strip_newlines t = strip_newlines_right (strip_newlines_left t)

-- `word.strip("\n").ljust(8, "\00")[:8]`
unfoldable pub key_text : Text → Text
unfolding strip_newlines
key_text word =
    let stripped = strip_newlines word in take 8 (stripped ++ replicate (8 - length stripped) 0)

-- the binary digits of n from the last on, read as a number from the first on: `rounds` of them, and
-- then as many as n has (the fuel is more than those)
unfoldable pub reverse_more : ℕ → ℕ → ℕ → ℕ
reverse_more zero n acc = acc
reverse_more (suc fuel) n acc =
    let rest = reverse_more fuel (n / 2) (acc * 2 + n % 2) in if n == 0 then acc else rest

unfoldable pub reverse_digits : ℕ → ℕ → ℕ → ℕ
unfolding reverse_more
reverse_digits zero n acc = reverse_more n n acc
reverse_digits (suc rounds) n acc = reverse_digits rounds (n / 2) (acc * 2 + n % 2)

-- `int(f"{ord(c):08b}"[::-1], 2)`
unfoldable pub reverse_bits : ℕ → ℕ
unfolding reverse_digits
reverse_bits c = reverse_digits 8 c 0

-- `bytes(numbers)`
unfoldable pub to_bytes : List ℕ → Result Bytes
to_bytes [] = ok []
to_bytes (n ∷ ns) = if ltb n 256 then (do rest ← to_bytes ns; ok (n ∷ rest)) else raised value_error

unfoldable pub reverse_all : Text → List ℕ
unfolding reverse_bits
reverse_all [] = []
reverse_all (c ∷ cs) = reverse_bits c ∷ reverse_all cs

module _ (des : Bytes → Bytes → Bytes) where
  -- `des key` encrypts in the mode ECB
  unfoldable pub encode : Text → Result Bytes
  unfolding key_text reverse_all to_bytes
  encode word = do key ← to_bytes (reverse_all (key_text word)); ok (des key challenge)

  -- `{self.encode(w): w for w in words}`
  unfoldable pub table_onto : Dict Text → List Text → Result (Dict Text)
  unfolding put
  table_onto d [] = ok d
  table_onto d (w ∷ ws) = do key ← encode w; table_onto (put d key w) ws

  -- `known_passwords`, from the words and the configured password
  unfoldable pub known_passwords : List Text → Text → Result (Dict Text)
  unfolding table_onto
  known_passwords words password = table_onto [] (words ++ password ∷ [])

-- the words that are known without a word file
abbrev pub default_words : List Text
default_words = codes "test" ∷ codes "admin" ∷ codes "123" ∷ codes "123456" ∷ []

unfoldable pub decode : Dict Text → Bytes → Option Text
unfolding get
decode known encoded_pw = get known encoded_pw
