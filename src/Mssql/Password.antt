-- ===== src/Mssql/Password.antt =====
-- How mssql_server.py reads the password of a login packet.
use Prim.Native.Nat.{bit_and, bit_or, bit_xor}
use honeypots.Prelude.{
  ℕ, ◌+◌, ◌*◌, ◌/◌, ◌%◌, ◌<◌, ◌≡◌, ◌≢◌, refl, ap, ◌∙◌, true, ◌&&◌, ◌||◌, not, [], ◌∷◌, All, arith,
  true_below, true_below_at, ◌==◌, if◌then◌else◌, Bool-cases, inl, inr,
}
use honeypots.Python.Bytes.{Bytes, Text, replace}
use honeypots.Python.Split.{replace_head, replace_other}

-- `((x ^ 0xA5) & 0x0F) << 4 | ((x ^ 0xA5) & 0xF0) >> 4`
unfoldable pub decrypt_byte : ℕ → ℕ
decrypt_byte x = bit_or (bit_and (bit_xor x 0xa5) 0x0f * 16) (bit_and (bit_xor x 0xa5) 0xf0 / 16)

unfoldable pub decrypt : Bytes → Text
unfolding decrypt_byte
decrypt [] = []
decrypt (x ∷ xs) = decrypt_byte x ∷ decrypt xs

unfoldable pub password_of : Bytes → Text
unfolding replace decrypt
password_of field = decrypt (replace (0xa5 ∷ []) [] (replace (0x00 ∷ []) [] field))

-- What the TDS protocol sends for a byte: its halves exchanged, and the pattern 0xA5 over them.
abbrev pub obfuscate_byte : ℕ → ℕ
obfuscate_byte c = bit_xor (c % 16 * 16 + c / 16) 0xa5

-- The password field of a client: UTF-16, each byte obfuscated. The characters are below 256, so
-- the second byte is always 0.
abbrev pub obfuscate : Text → Bytes
obfuscate [] = []
obfuscate (c ∷ cs) = obfuscate_byte c ∷ obfuscate_byte 0 ∷ obfuscate cs

-- the text with every `Z` left out
abbrev pub without_z : Text → Text
without_z [] = []
without_z (c ∷ cs) = if c == b'Z' then without_z cs else c ∷ without_z cs

-- the facts about one byte, checked over all of them
byte_table :
    true_below 256 (λ c.
      decrypt_byte (obfuscate_byte c) == c
      && (c == b'Z' || not (obfuscate_byte c == 0))
      && (c == 0 || not (obfuscate_byte c == 0xa5)))
    ≡ true
unfolding true_below decrypt_byte
byte_table = refl

decrypt-obfuscate_byte :
    (c : ℕ)
    → c < 256
    → (decrypt_byte (obfuscate_byte c) ≡ c)
      × (c ≢ b'Z' → obfuscate_byte c ≢ 0)
      × (c ≢ 0 → obfuscate_byte c ≢ 0xa5)
decrypt-obfuscate_byte c h = ground (arith, true_below_at 256 _ c byte_table h)

-- the field without the bytes that the code takes out
abbrev kept : Bytes → Bytes
kept field = replace (0xa5 ∷ []) [] (replace (0x00 ∷ []) [] field)

kept_zero : (xs : Bytes) → kept (0x00 ∷ xs) ≡ kept xs
kept_zero xs = ap (replace (0xa5 ∷ []) []) (replace_head 0x00 [] [] xs)

kept_pattern : (xs : Bytes) → kept (0xa5 ∷ xs) ≡ kept xs
kept_pattern xs =
    ap (replace (0xa5 ∷ []) []) (replace_other 0x00 0xa5 [] [] xs (omega arith))
    ∙ replace_head 0xa5 [] [] (replace (0x00 ∷ []) [] xs)

kept_other : (x : ℕ) (xs : Bytes) → x ≢ 0x00 → x ≢ 0xa5 → kept (x ∷ xs) ≡ x ∷ kept xs
kept_other x xs h g =
    ap (replace (0xa5 ∷ []) []) (replace_other 0x00 x [] [] xs h)
    ∙ replace_other 0xa5 x [] [] (replace (0x00 ∷ []) [] xs) g

abbrev pub IsCharacter : ℕ → Type 0
IsCharacter c = (c ≢ 0) × (c < 256)

decrypt-kept : (p : Text) → All IsCharacter p → decrypt (kept (obfuscate p)) ≡ without_z p
unfolding decrypt
decrypt-kept [] h = unfold replace in refl
decrypt-kept (c ∷ cs) h = elim (Bool-cases (c == b'Z')) [
  | inl z ↦ ground (
    arith,
    kept_zero (obfuscate_byte 0 ∷ obfuscate cs),
    kept_pattern (obfuscate cs),
    decrypt-kept cs h.1,
  )
  | inr other ↦ ground (
    arith,
    decrypt-obfuscate_byte c h.0.1,
    kept_other (obfuscate_byte c) (obfuscate_byte 0 ∷ obfuscate cs),
    kept_pattern (obfuscate cs),
    decrypt-kept cs h.1,
  )
]

-- The password that is read from the field of a client is what the client typed with every `Z` left
-- out, for characters from 1 to 255: `Z` is the character whose obfuscated byte is 0, and the code
-- deletes the zero bytes before it decrypts.
pub password_of-obfuscate : (p : Text) → All IsCharacter p → password_of (obfuscate p) ≡ without_z p
unfolding password_of
password_of-obfuscate p h = decrypt-kept p h
