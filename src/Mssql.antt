-- ===== src/Mssql.antt =====
-- mssql_server.py: the pre-login answer and the login packet.
pub mod Password
pub mod Payload
pub mod Login
mod Tests
use honeypots.Prelude.{
  ℕ, ◌+◌, ◌*◌, Bool, true, false, Option, none, some, List, [], ◌∷◌, ◌++◌, String, ◌==◌,
  if◌then◌else◌,
}
use honeypots.Python.Bytes.{Bytes, Text, codes, slice, replace, unhex}
use honeypots.Python.Utf8.{decode}
use honeypots.Python.Result.{of_option, index, unicode_error, type_error, raised}
use honeypots.Python.Struct.{unpack_hh}
use honeypots.Session.{
  Handler, ◌>>=◌, ◌>>◌, gets, modify, lift, raise, write, lose_connection, skip, feed,
}
use honeypots.Base.{Server, Peer, log, log_connection, check_login, check_login_}
use honeypots.Helper.{text, check_bytes}
use honeypots.Mssql.Password.{password_of}
use honeypots.Mssql.Payload.{create_payload}

-- `_state`
abbrev pub State : Type 0
State = Option ℕ

abbrev in_state : ℕ → State → Bool
in_state n none = false
in_state n (some m) = m == n

abbrev set_state : State → Handler State (Unit {0})
set_state s = modify (λ _. s)

unfoldable pub connection_made : Server → Peer → Handler State (Unit {0})
unfolding log
connection_made q peer = do set_state (some 1); log_connection q peer

-- the packet types of `PacketType`
abbrev pub login_packet : ℕ
login_packet = 0x10

abbrev pub pre_login_packet : ℕ
pre_login_packet = 0x12

abbrev pub pre_login_answer : Text
pre_login_answer =
    codes "0401002500000100000015000601001b000102001c000103001d0000ff1100000000000200"

-- `self.transport.write(payload)`, which refuses `None`
abbrev write_payload : Option Bytes → Handler State (Unit {0})
write_payload none = raise type_error
write_payload (some payload) = write payload

-- `data[8 + start : 8 + start + length * 2]` for a field of the login packet
abbrev pub login_field : Bytes → ℕ × ℕ → Bytes
login_field data_ (start, length_) = slice (8 + start) (8 + start + length_ * 2) data_

unfoldable pub handle_login : Server → Peer → Bytes → Handler State (Unit {0})
unfolding check_bytes
handle_login q peer data_ = do
  user_at ← lift (unpack_hh (slice 48 52 data_))
  username ←
      lift (of_option unicode_error (decode (replace (0 ∷ []) [] (login_field data_ user_at))))
  password_at ← lift (unpack_hh (slice 52 56 data_))
  let password = password_of (login_field data_ password_at)
  check_login_ q (check_bytes (text username)) password peer
  write_payload (create_payload [] (codes "Login Failed") 18456)

unfoldable pub data_received : Server → Peer → Bytes → Handler State (Unit {0})
unfolding unhex
data_received q peer data_ = do
  state ← gets (λ s. s)
  if in_state 1 state
      then (do
        packet_type ← lift (index data_ 0)
        if packet_type == pre_login_packet
            then write (unhex pre_login_answer)
            else if packet_type == login_packet
            then handle_login q peer data_
            else skip)
      else lose_connection

unfoldable pub connection_lost : Handler State (Unit {0})
connection_lost = set_state none
