-- ===== src/Python/Struct.antt =====
-- `struct.unpack` and `struct.pack` for the formats that the servers use: the exact number of bytes,
-- or `struct.error`.
use honeypots.Prelude.{ℕ, ◌+◌, ◌*◌, ◌/◌, ◌%◌, ◌^◌, [], ◌∷◌}
use honeypots.Python.Bytes.{Bytes}
use honeypots.Python.Result.{Result, ok, raised, struct_error}

-- `unpack("B", data)`
abbrev pub unpack_b : Bytes → Result ℕ
unpack_b (a ∷ []) = ok a
unpack_b _ = raised struct_error

-- `unpack("!BB", data)`
abbrev pub unpack_bb : Bytes → Result (ℕ × ℕ)
unpack_bb (a ∷ b ∷ []) = ok (a, b)
unpack_bb _ = raised struct_error

-- `unpack(">H", data)`
abbrev pub unpack_h : Bytes → Result ℕ
unpack_h (a ∷ b ∷ []) = ok (a * 256 + b)
unpack_h _ = raised struct_error

-- `unpack(">I", data)`
abbrev pub unpack_i : Bytes → Result ℕ
unpack_i (a ∷ b ∷ c ∷ d ∷ []) = ok (((a * 256 + b) * 256 + c) * 256 + d)
unpack_i _ = raised struct_error

-- `unpack("=HH", data)` on a little-endian machine
abbrev pub unpack_hh : Bytes → Result (ℕ × ℕ)
unpack_hh (a ∷ b ∷ c ∷ d ∷ []) = ok (a + b * 256, c + d * 256)
unpack_hh _ = raised struct_error

-- `n.to_bytes(2, "big")`, which is `pack(">H", n)`, for an n below 2 ^ 16
abbrev pub pack_h : ℕ → Bytes
pack_h n = (n / 256 % 256) ∷ (n % 256) ∷ []

-- `pack("<I", n)` for an n below 2 ^ 32
abbrev pub pack_le_i : ℕ → Bytes
pack_le_i n = (n % 256) ∷ (n / 256 % 256) ∷ (n / 65536 % 256) ∷ (n / 16777216 % 256) ∷ []

-- `pack(">Q", n)` for an n below 2 ^ 64
abbrev pub pack_q : ℕ → Bytes
pack_q n =
    (n / 2 ^ 56 % 256)
    ∷ (n / 2 ^ 48 % 256)
    ∷ (n / 2 ^ 40 % 256)
    ∷ (n / 2 ^ 32 % 256)
    ∷ (n / 2 ^ 24 % 256)
    ∷ (n / 2 ^ 16 % 256)
    ∷ (n / 2 ^ 8 % 256)
    ∷ (n % 256)
    ∷ []

-- `unpack("HHHHH", data)` on a little-endian machine
abbrev pub unpack_hhhhh : Bytes → Result (ℕ × ℕ × ℕ × ℕ × ℕ)
unpack_hhhhh (a ∷ b ∷ c ∷ d ∷ e ∷ f ∷ g ∷ h ∷ i ∷ j ∷ []) =
    ok (a + b * 256, c + d * 256, e + f * 256, g + h * 256, i + j * 256)
unpack_hhhhh _ = raised struct_error

-- `pack("<H", n)` for an n below 2 ^ 16
abbrev pub pack_le_h : ℕ → Bytes
pack_le_h n = (n % 256) ∷ (n / 256) ∷ []
