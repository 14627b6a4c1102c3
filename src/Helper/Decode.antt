-- ===== src/Helper/Decode.antt =====
-- `check_bytes` on what a client encoded.
use honeypots.Prelude.{ℕ, ◌≡◌, All, refl, ◌∷◌, ◌++◌}
use honeypots.Python.Bytes.{Text}
use honeypots.Python.Utf8.{encode}
use honeypots.Python.Utf8.RoundTrip.{IsScalar, IsStray, decode_replace-encode, decode_replace-stray}
use honeypots.Helper.{Argument, bytes, check_bytes}

-- `check_bytes` gives a text back as it is, and also from its UTF-8 encoding, whatever its characters
-- are, as long as they are Unicode scalar values; a byte that belongs to no character, between two
-- encoded texts, neither raises nor is dropped, but is one replacement character between them.
pub check_bytes-encode :
    (s t : Text) (b : ℕ)
    → All IsScalar s
    → All IsScalar t
    → IsStray b
    → (check_bytes (Argument.text s) ≡ s)
      × (check_bytes (bytes (encode s)) ≡ s)
      × (check_bytes (bytes (encode s ++ b ∷ encode t)) ≡ s ++ 0xfffd ∷ t)
unfolding check_bytes
check_bytes-encode s t b h k g = (refl, decode_replace-encode s h, decode_replace-stray s t b h k g)
