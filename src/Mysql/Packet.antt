-- ===== src/Mysql/Packet.antt =====
-- The packets that mysql_server.py writes, and the login packet that it reads.
pub mod Layout
use honeypots.Prelude.{
  ℕ, ◌+◌, ◌-◌, Bool, true, false, Option, none, some, List, [], ◌∷◌, ◌++◌, length, take, drop,
  replicate, ◌==◌, if◌then◌else◌,
}
use honeypots.Python.Bytes.{Bytes, codes, find, slice, join}
use honeypots.Python.Result.{ok, raised, index}
use honeypots.Python.Struct.{pack_le_i}
use honeypots.Helper.{Argument, bytes, text}

-- MySQL packets: 3 bytes of length, 1 byte of sequence id, the payload
unfoldable pub create_response : List Bytes → ℕ → Bytes
unfolding join
create_response base sequence_id =
    let payload = join [] base in take 3 (pack_le_i (length payload)) ++ sequence_id ∷ payload

unfoldable pub greeting : Bytes
unfolding create_response
greeting =
    create_response
      ((0x0a ∷ [])
        ∷ (codes "5.7.00" ++ 0 ∷ [])
        ∷ (0x36 ∷ 0 ∷ 0 ∷ 0 ∷ [])
        ∷ (codes "12345678" ++ 0 ∷ [])
        ∷ (0xff ∷ 0xf7 ∷ [])
        ∷ (0x21 ∷ [])
        ∷ (0x02 ∷ 0x00 ∷ [])
        ∷ (0x0f ∷ 0x81 ∷ [])
        ∷ (0x15 ∷ [])
        ∷ replicate 10 0
        ∷ (codes "123456789012" ++ 0 ∷ [])
        ∷ (codes "mysql_native_password" ++ 0 ∷ [])
        ∷ [])
      0

unfoldable pub too_many : Bytes
unfolding create_response
too_many =
    create_response
      ((0xff ∷ []) ∷ (0x10 ∷ 0x04 ∷ []) ∷ codes "#08004" ∷ codes "Too many connections" ∷ []) 2

unfoldable pub access_denied : Bytes
unfolding create_response
access_denied =
    create_response
      ((0xff ∷ []) ∷ (0x15 ∷ 0x04 ∷ []) ∷ codes "#28000" ∷ codes "Access denied.." ∷ []) 2

pub record Parsed : Type 0 where
  pub username : Argument
  pub password : Argument
  pub good : Bool

abbrev pub username_offset : ℕ
username_offset = 36

-- the part under `with suppress(IndexError)`, with the length of the name
unfoldable pub parse_fields : Bytes → ℕ → Parsed
parse_fields data_ username_len =
    let username = bytes (slice username_offset (username_offset + username_len) data_) in
    let password_offset = username_offset + username_len + 2 in
    elim (index data_ (password_offset - 1)) [
      | raised e ↦ record { username = username; password = text []; good = false }
      | ok password_len ↦ record {
        username = username;
        password = bytes (slice password_offset (password_offset + password_len) data_);
        good = password_len == 20;
      }
    ]

unfoldable pub parse_data : Bytes → Parsed
unfolding parse_fields
parse_data data_ = elim (find (0 ∷ []) (drop username_offset data_)) [
  | none ↦ record { username = text []; password = text []; good = false }
  | some username_len ↦ parse_fields data_ username_len
]
