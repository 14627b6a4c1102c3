-- ===== src/Mssql/Payload/Length.antt =====
-- The length field of the payload.
use honeypots.Prelude.{
  ℕ, ◌/◌, ◌%◌, ◌<◌, ◌≤◌, ◌≡◌, refl, ap, sym, ◌∙◌, Bool, true, false, some, [], ◌∷◌, ◌++◌, length,
  drop, length-drop, true_below, true_below_at, arith, ◌==◌, Option-cases, inl, inr,
}
use honeypots.Python.Bytes.{Bytes, Text, codes, slice, hex, unhex}
use honeypots.Python.Struct.{pack_h}
use honeypots.Mssql.Payload.{data_stream, with_length, create_payload}

length-unhex : (t : Text) → length (unhex t) ≡ length t / 2
unfolding unhex
length-unhex [] = omega arith
length-unhex (a ∷ []) = omega arith
length-unhex (a ∷ b ∷ t) = omega (arith, length-unhex t)

abbrev same_pair : Bytes → ℕ → Bool
same_pair (x ∷ []) b = x == b
same_pair _ b = false

hex_table : true_below 256 (λ b. same_pair (unhex (hex (b ∷ []))) b) ≡ true
unfolding true_below hex unhex
hex_table = refl

unhex-hex_byte : (b : ℕ) (t : Text) → b < 256 → unhex (hex (b ∷ []) ++ t) ≡ b ∷ unhex t
unfolding hex unhex
unhex-hex_byte b t h = ground (arith, true_below_at 256 _ b hex_table h)

-- the stream begins with the type and the status of the packet, and goes beyond its length
abbrev Begins : Text → Type 0
Begins t = (rest : Text) × (t ≡ codes "0401" ++ rest) × (4 ≤ length rest)

data_stream-Begins :
    (name message : Text) (code : ℕ) (t : Text) → data_stream name message code ≡ some t → Begins t
unfolding data_stream
data_stream-Begins name message code t h = (drop 4 t, ground arith, ground arith)

unhex_start : (t : Text) → unhex (codes "0401" ++ t) ≡ 4 ∷ 1 ∷ unhex t
unfolding unhex
unhex_start t = refl

unhex-hex_two :
    (a b : ℕ) (t : Text) → a < 256 → b < 256 → unhex (hex (a ∷ b ∷ []) ++ t) ≡ a ∷ b ∷ unhex t
unhex-hex_two a b t p q =
    unfold hex in (unhex-hex_byte a (hex (b ∷ []) ++ t) p ∙ ap (◌∷◌ a) (unhex-hex_byte b t q))

with_length-field :
    (rest : Text) (payload : Bytes)
    → 4 ≤ length rest
    → with_length (codes "0401" ++ rest) ≡ some payload
    → slice 2 4 payload ≡ pack_h (length payload)
unfolding with_length
with_length-field rest payload l h =
    let n = length (unhex (codes "0401" ++ rest)) in
    ground (
      arith,
      unhex_start rest,
      unhex_start (hex (pack_h n) ++ drop 4 rest),
      unhex-hex_two (n / 256 % 256) (n % 256) (drop 4 rest) (omega arith) (omega arith),
      length-unhex rest,
      length-unhex (drop 4 rest),
      length-drop 4 rest,
    )

-- Whatever the server name, the message and the error code are: where `create_payload` gives a
-- payload, the two bytes of its length field hold the length of the whole payload.
pub create_payload-length :
    (name message : Text) (code : ℕ) (payload : Bytes)
    → create_payload name message code ≡ some payload
    → slice 2 4 payload ≡ pack_h (length payload)
unfolding create_payload
create_payload-length name message code payload h =
    elim (Option-cases (data_stream name message code)) [
      | inl e ↦ cc (h, e)
      | inr (t, e) ↦
          let (rest, begins, l) = data_stream-Begins name message code t e in
          with_length-field rest payload l
            (ap with_length (sym begins) ∙ (rw (e, create_payload) at h))
    ]
