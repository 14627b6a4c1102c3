-- ===== src/Mysql/Scramble.antt =====
-- `decode` of mysql_server.py: the words that may stand behind a scrambled password.
pub mod Answer
use Prim.Native.Nat.{bit_xor}
use honeypots.Prelude.{ℕ, Bool, Option, none, some, List, [], ◌∷◌, ◌++◌, map, ◌==◌, if◌then◌else◌}
use honeypots.Python.Bytes.{Bytes, Text, codes, bytes_eq}
use honeypots.Python.Utf8.{encode}
use honeypots.Python.Result.{Result, ok, raised, type_error}
use honeypots.Helper.{Argument}

-- The words are byte strings, or, from a word file, texts.
pub data Word : Type 0 where
  byte_word : Bytes → Word
  text_word : Text → Word

-- `self.words` after `__init__`: the lines of the word file, if there is one, or the password
unfoldable pub words_of : Option (List Text) → Text → List Word
unfolding encode
words_of (some lines) password = map text_word lines
words_of none password = byte_word (encode password) ∷ []

unfoldable pub strip_newlines_left : Bytes → Bytes
strip_newlines_left [] = []
strip_newlines_left (c ∷ cs) =
    let rest = strip_newlines_left cs in if c == b'\n' then rest else c ∷ cs

unfoldable pub strip_newlines_right : Bytes → Bytes
strip_newlines_right [] = []
strip_newlines_right (c ∷ cs) = elim (strip_newlines_right cs) [
  | [] ↦ if c == b'\n' then [] else c ∷ []
  | d ∷ ds ↦ c ∷ d ∷ ds
]

-- `word.strip(b"\n")`, which a text refuses
unfoldable pub strip_newlines : Bytes → Bytes
unfolding strip_newlines_left strip_newlines_right
strip_newlines w = strip_newlines_right (strip_newlines_left w)

unfoldable pub strip_word : Word → Result Bytes
unfolding strip_newlines
strip_word (byte_word w) = ok (strip_newlines w)
strip_word (text_word w) = raised type_error

-- `[(a ^ b) for a, b in zip(xs, ys)]`
unfoldable pub xor_all : Bytes → Bytes → Bytes
xor_all (a ∷ xs) (b ∷ ys) = bit_xor a b ∷ xor_all xs ys
xor_all _ _ = []

module _ (sha1 : Bytes → Bytes) where
  -- what a client sends for a word, `encrypted`
  unfoldable pub scramble : Bytes → Bytes
  unfolding xor_all
  scramble stripped =
      let hash1 = sha1 stripped in
      let hash2 = sha1 hash1 in xor_all hash1 (sha1 (codes "12345678123456789012" ++ hash2))

  -- the first word whose scramble is `hash`; an exception ends the search
  unfoldable pub decode : List Word → Bytes → Option Word
  decode [] hash = none
  decode (word ∷ words) hash =
      let later = decode words hash in
      elim (strip_word word) [
        | raised e ↦ none
        | ok stripped ↦ if bytes_eq (scramble stripped) hash then some word else later
      ]

-- a word as `check_bytes` takes it
abbrev pub argument : Word → Argument
argument (byte_word w) = Argument.bytes w
argument (text_word w) = Argument.text w
