-- ===== src/Helper/Tests.antt =====
-- The theorem on `check_bytes` at a concrete text.
use honeypots.Prelude.{inr, ◌++◌, ℕ, ◌≡◌, refl, arith, [], ◌∷◌}
use honeypots.Python.Bytes.{Text, codes}
use honeypots.Python.Value.{Value, dict, field, text, int, end}
use honeypots.Python.Utf8.{encode, decode_ignore}
use honeypots.Helper.{Argument, bytes, check_bytes}
use honeypots.Helper.Serialize.{serialize_object}
use honeypots.Helper.Serialize.Plain.{IsPlain, serialize_object-IsPlain}
use honeypots.Helper.Decode.{check_bytes-encode}

-- characters of one, two, three and four bytes
abbrev sample : Text
sample = 0x41 ∷ 0xe9 ∷ 0x20ac ∷ 0x1f600 ∷ []

check_bytes-encode_example :
    (check_bytes (Argument.text sample) ≡ sample)
    × (check_bytes (bytes (encode sample)) ≡ sample)
    × (check_bytes (bytes (encode sample ++ 0xff ∷ encode sample)) ≡ sample ++ 0xfffd ∷ sample)
check_bytes-encode_example =
    check_bytes-encode sample sample 0xff (ground arith) (ground arith)
      (inr (omega arith, omega arith))

abbrev entry : Value
entry = dict (
    field (codes "data") (Value.bytes (97 ∷ 0 ∷ 98 ∷ 255 ∷ [])) (field (codes "port") (int 80) end))

abbrev no_text : ℕ → Text
no_text n = []

serialize_object-IsPlain_example :
    IsPlain (serialize_object no_text no_text entry)
    × (serialize_object no_text no_text (serialize_object no_text no_text entry)
        ≡ serialize_object no_text no_text entry)
serialize_object-IsPlain_example = serialize_object-IsPlain no_text no_text (λ n. tt) entry

-- the zero becomes a space, and what is not UTF-8 goes
serialize_entry :
    serialize_object no_text no_text entry
    ≡ dict
        (field (codes "data") (text (codes "a b")) (field (codes "port") (text (codes "80")) end))
unfolding serialize_object decode_ignore
serialize_entry = refl
