-- ===== src/Ipp/Reader.antt =====
-- The reading functions of ipp_server.py: each returns the next index beside what it read.
use honeypots.Prelude.{ℕ, ◌+◌}
use honeypots.Prelude.Int.{ℤ, signed_byte}
use honeypots.Python.Bytes.{Bytes, slice}
use honeypots.Python.Result.{Result, ok, ◌>>=◌}
use honeypots.Python.Struct.{unpack_b, unpack_h, unpack_i}

-- The format is "b", so the byte is read as a signed one.
unfoldable pub get_uint8_t : ℕ → Bytes → Result (ℕ × ℤ)
get_uint8_t index data_ = do
  b ← unpack_b (slice index (index + 1) data_)
  ok (index + 1, signed_byte b)

unfoldable pub get_uint16_t : ℕ → Bytes → Result (ℕ × ℕ)
get_uint16_t index data_ = do n ← unpack_h (slice index (index + 2) data_); ok (index + 2, n)

unfoldable pub get_uint32_t : ℕ → Bytes → Result (ℕ × ℕ)
get_uint32_t index data_ = do n ← unpack_i (slice index (index + 4) data_); ok (index + 4, n)

-- At the end of the data the bytes are fewer; no exception is raised.
unfoldable pub get_string : ℕ → ℕ → Bytes → ℕ × Bytes
get_string index length_ data_ = (index + length_, slice index (index + length_) data_)
