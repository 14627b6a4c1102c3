-- ===== src/Prelude/Int.antt =====
-- Integers, as Python has them. `negsuc n` is -(n + 1).
use Prim.Native.Nat.{ℕ, ◌-◌}
use honeypots.Prelude.Tests.{ltb, if◌then◌else◌}

pub data ℤ : Type 0 where
  pos : ℕ → ℤ
  negsuc : ℕ → ℤ

-- `unpack("b", byte)`: the byte read in two's complement
abbrev pub signed_byte : ℕ → ℤ
signed_byte b = if ltb b 128 then pos b else negsuc (255 - b)
