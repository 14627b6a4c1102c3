-- ===== src/Vnc/Passwords/Table.antt =====
-- What the table of known passwords answers.
use honeypots.Prelude.{
  ℕ, ◌≡◌, refl, ◌⊎◌, inl, inr, ◌<◌, true, some, List, [], ◌∷◌, ◌++◌, arith, true_below,
  true_below_at, ◌&&◌, ltb, ◌==◌,
}
use honeypots.Python.Bytes.{Bytes, Text}
use honeypots.Python.Dict.{Dict, get, put, get-put, bytes_eq_refl, bytes_eq_iff}
use honeypots.Python.Result.{ok, Result-cases}
use honeypots.Vnc.Passwords.{encode, table_onto, known_passwords, decode, reverse_bits}

-- A word stands in the list.
abbrev pub Among : Text → List Text → Type 0
Among w [] = ⊥
Among w (v ∷ vs) = (w ≡ v) ⊎ Among w vs

module _ (des : Bytes → Bytes → Bytes) where
  table_onto_last :
      (ws : List Text) (d known : Dict Text) (p : Text) (key : Bytes)
      → table_onto des d (ws ++ p ∷ []) ≡ ok known
      → encode des p ≡ ok key
      → get known key ≡ some p
  unfolding table_onto
  table_onto_last [] d known p key h e =
      ground (arith, h, e, get-put d key key p, bytes_eq_refl key)
  table_onto_last (w ∷ ws) d known p key h e = elim (Result-cases (encode des w)) [
    | inl (k, f) ↦ table_onto_last ws (put d k w) known p key (rw (f, table_onto) at h) e
    | inr (x, f) ↦ ground (arith, h, f)
  ]

  table_onto_sound :
      (ws : List Text) (d known : Dict Text) (w : Text) (key : Bytes)
      → table_onto des d ws ≡ ok known
      → get known key ≡ some w
      → (get d key ≡ some w) ⊎ (Among w ws × (encode des w ≡ ok key))
  unfolding table_onto
  table_onto_sound [] d known w key h e = inl (ground arith)
  table_onto_sound (v ∷ vs) d known w key h e = elim (Result-cases (encode des v)) [
    | inl (k, f) ↦ ground (
      arith,
      f,
      table_onto_sound vs (put d k v) known w key (rw (f, table_onto) at h) e,
      get-put d k key v,
      bytes_eq_iff k key,
    )
    | inr (x, f) ↦ ground (arith, h, f)
  ]

  -- In the table of known passwords, the encrypted challenge of the configured password is found
  -- under that password, whatever the words are.
  pub decode-configured :
      (words : List Text) (password : Text) (known : Dict Text) (key : Bytes)
      → known_passwords des words password ≡ ok known
      → encode des password ≡ ok key
      → decode known key ≡ some password
  unfolding known_passwords decode
  decode-configured words password known key h e = table_onto_last words [] known password key h e

  -- Whatever password is found for a response is one of the words or the configured password, and
  -- the response is the encryption of the challenge with it.
  pub decode_known_sound :
      (words : List Text) (password : Text) (known : Dict Text) (key : Bytes) (w : Text)
      → known_passwords des words password ≡ ok known
      → decode known key ≡ some w
      → Among w (words ++ password ∷ []) × (encode des w ≡ ok key)
  unfolding known_passwords decode
  decode_known_sound words password known key w h e =
      ground (arith, table_onto_sound (words ++ password ∷ []) [] known w key h e)

reverse_table :
    true_below 256 (λ c. (reverse_bits (reverse_bits c) == c) && ltb (reverse_bits c) 256) ≡ true
unfolding true_below reverse_bits
reverse_table = refl

-- The reversal of the eight bits of a byte undoes itself, and gives a byte.
reverse_bits-reverse_bits :
    (c : ℕ) → c < 256 → (reverse_bits (reverse_bits c) ≡ c) × (reverse_bits c < 256)
reverse_bits-reverse_bits c h = ground (arith, true_below_at 256 _ c reverse_table h)
