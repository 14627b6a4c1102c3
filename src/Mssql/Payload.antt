-- ===== src/Mssql/Payload.antt =====
-- `create_payload` of mssql_server.py, built in hexadecimal as the source builds it.
pub mod Length
use honeypots.Prelude.{
  ℕ, zero, suc, ◌+◌, ◌-◌, ◌*◌, ◌/◌, ◌%◌, ◌^◌, Bool, ◌&&◌, Option, none, some, List, [], ◌∷◌, ◌++◌,
  length, take, drop, leb, ltb, if◌then◌else◌,
}
use honeypots.Python.Bytes.{Bytes, Text, codes, bytes_eq, hex, unhex}
use honeypots.Python.Struct.{pack_h, pack_le_i}

-- `text.encode("utf-16-le")`; a surrogate cannot be encoded
unfoldable pub utf_16_le : Text → Option Bytes
utf_16_le [] = some []
utf_16_le (c ∷ cs) = elim (utf_16_le cs) [
  | none ↦ none
  | some rest ↦
      if leb 0xd800 c && leb c 0xdfff
      then none
      else if ltb c 0x10000
      then some ((c % 256) ∷ (c / 256) ∷ rest)
      else (let high = 0xd800 + (c - 0x10000) / 1024 in
          let low = 0xdc00 + (c - 0x10000) % 1024 in
          some ((high % 256) ∷ (high / 256) ∷ (low % 256) ∷ (low / 256) ∷ rest))
]

infixl 10 ◌>>=◌
abbrev ◌>>=◌ : {A B : Type 0} → Option A → (A → Option B) → Option B
none >>= f = none
some a >>= f = f a

-- `pack("b", n)`, `pack("<H", n)`, `pack("<I", n)` and `pack(">H", n)`, with `none` out of range
abbrev pack_b : ℕ → Option Bytes
pack_b n = if ltb n 128 then some (n ∷ []) else none

abbrev pack_le_h : ℕ → Option Bytes
pack_le_h n = if ltb n 65536 then some ((n % 256) ∷ (n / 256) ∷ []) else none

abbrev pack_code : ℕ → Option Bytes
pack_code n = if ltb n (2 ^ 32) then some (pack_le_i n) else none

abbrev pack_be_h : ℕ → Option Bytes
pack_be_h n = if ltb n 65536 then some (pack_h n) else none

abbrev or_default : Text → Text → Text
or_default t d = if bytes_eq t [] then d else t

abbrev default_message : Text
default_message = codes "An error has occurred while establishing a connection to the server."

-- the stream without its length
unfoldable pub data_stream : Text → Text → ℕ → Option Text
unfolding bytes_eq utf_16_le hex unhex
data_stream server_name token_error_msg error_code = do
  let name = or_default server_name (codes "R&Dbackup")
  let message = or_default token_error_msg default_message
  name_len ← pack_b (length name)
  message_len ← pack_le_h (length message)
  code ← pack_code error_code
  message_utf_16 ← utf_16_le message
  name_utf_16 ← utf_16_le name
  let token_error_hex =
      hex code
      ++ (codes "010e"
          ++ (hex message_len
              ++ (hex message_utf_16 ++ (hex name_len ++ (hex name_utf_16 ++ codes "0001000000")))))
  token_error_len ← pack_le_h (length (unhex token_error_hex))
  some (
      codes "0401007600350100aa"
      ++ (hex token_error_len ++ (token_error_hex ++ codes "fd020000000000000000000000")))

-- the stream with its length put in
unfoldable pub with_length : Text → Option Bytes
with_length stream = do
  data_len ← pack_be_h (length (unhex stream))
  some (unhex (take 4 stream ++ (hex data_len ++ drop 8 stream)))

-- `none` where an exception was suppressed
unfoldable pub create_payload : Text → Text → ℕ → Option Bytes
create_payload server_name token_error_msg error_code = do
  stream ← data_stream server_name token_error_msg error_code
  with_length stream
