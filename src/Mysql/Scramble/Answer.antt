-- ===== src/Mysql/Scramble/Answer.antt =====
-- When `decode` finds the word of a client.
use honeypots.Prelude.{
  ◌≡◌, ◌⊎◌, inl, inr, refl, none, some, List, [], ◌∷◌, arith, Bool-cases, if◌then◌else◌,
}
use honeypots.Python.Bytes.{Bytes, Text, bytes_eq}
use honeypots.Python.Utf8.{encode}
use honeypots.Python.Dict.{bytes_eq_iff}
use honeypots.Python.Result.{ok}
use honeypots.Mysql.Scramble.{
  Word, byte_word, text_word, words_of, strip_newlines, strip_word, scramble, decode,
}

-- A word of the list has this stripped form.
abbrev pub Strips : Word → Bytes → List Word → Type 0
Strips w b [] = ⊥
Strips w b (v ∷ vs) = ((w ≡ v) × (strip_word w ≡ ok b)) ⊎ Strips w b vs

module _ (sha1 : Bytes → Bytes) where
  -- Whatever `decode` gives is one of the words, and the client's answer is the scramble of it.
  pub decode_sound :
      (words : List Word) (hash : Bytes) (w : Word)
      → decode sha1 words hash ≡ some w
      → (b : Bytes) × Strips w b words × (scramble sha1 b ≡ hash)
  unfolding decode strip_word
  decode_sound [] hash w h = cc
  decode_sound (text_word t ∷ words) hash w h = cc
  decode_sound (byte_word v ∷ words) hash w h =
      elim (Bool-cases (bytes_eq (scramble sha1 (strip_newlines v)) hash)) [
        | inl same ↦ (
          strip_newlines v,
          inl (ground arith, ground arith),
          (bytes_eq_iff (scramble sha1 (strip_newlines v)) hash).0 same,
        )
        | inr other ↦
            let (b, among, e) = decode_sound words hash w (ground arith) in (b, inr among, e)
      ]

  -- Without a word file, the configured password is recognised exactly by its scramble.
  decode_password :
      (password : Text) (b hash : Bytes)
      → strip_word (byte_word (encode password)) ≡ ok b
      → decode sha1 (words_of none password) hash
        ≡ (if bytes_eq (scramble sha1 b) hash then some (byte_word (encode password)) else none)
  unfolding decode words_of
  decode_password password b hash h = ground (arith, h)

  -- With a word file no password is ever recognised, whatever the file and the client's answer are:
  -- the lines are texts, and the first `strip(b"\n")` raises an exception that is suppressed.
  pub decode_word_file :
      (lines : List Text) (password : Text) (hash : Bytes)
      → decode sha1 (words_of (some lines) password) hash ≡ none
  unfolding decode words_of strip_word
  decode_word_file [] password hash = refl
  decode_word_file (l ∷ lines) password hash = refl
