-- ===== src/Rdp.antt =====
-- rdp_server.py: one connection of the remote desktop server, with what the client sends as the list
-- of the chunks that `recv` gives. Behind the last chunk `recv` times out.
pub mod Credentials
pub mod Unlogged
mod Tests
use honeypots.Prelude.{
  ℕ, zero, suc, ◌+◌, ◌-◌, ◌*◌, Bool, true, false, Option, none, some, List, [], ◌∷◌, ◌++◌, length,
  take, drop, ltb, ◌==◌, if◌then◌else◌,
}
use mathlib.Core.Option
use honeypots.Python.Bytes.{Bytes, Text, codes, find, slice}
use honeypots.Python.Utf8.{decode_replace}
use honeypots.Python.Struct.{unpack_hhhhh}
use honeypots.Python.Result.{Result, ok, raised, Exn, index, of_option}
use honeypots.Python.Value.{Value, text, int, dict, fields, item, word}
use honeypots.Session.{
  Handler, ◌>>=◌, ◌>>◌, pure, raise, lift, gets, modify, write, emit, suppress, skip,
  lose_connection,
}
use honeypots.Helper.{bytes, check_bytes}
use honeypots.Base.{Server, Peer, log, log_connection, check_login}

-- The bytes that are not zero, up to two zeros in a row; `none` where the data end in a zero, for
-- which `data[idx + 1]` raises.
unfoldable pub value_from : Bytes → Option Bytes
value_from [] = some []
value_from (zero ∷ []) = none
value_from (zero ∷ zero ∷ data_) = some []
value_from (zero ∷ suc b ∷ data_) = value_from (suc b ∷ data_)
value_from (suc b ∷ data_) = Option.map (λ var. suc b ∷ var) (value_from data_)

-- `length / 2 == len(var)`, the division being exact
unfoldable pub get_value : ℕ → Bytes → Bytes
unfolding value_from
get_value length_ data_ = elim (value_from data_) [
  | none ↦ []
  | some var ↦ if length_ == 2 * length var then var else []
]

-- `data[: data.find(b"\r\n")]`: without a line break the last byte is cut
unfoldable pub extract_cookie : Bytes → Bytes
unfolding find
extract_cookie data_ = elim (find (codes "\r\n") data_) [
  | none ↦ take (length data_ - 1) data_
  | some i ↦ take i data_
]

unfoldable pub creds_at : Bytes → (ℕ × ℕ × ℕ × ℕ × ℕ) → Bytes × Bytes
unfolding get_value
creds_at data_ (domain_length, user_length, password_length, _, _) =
    let user_at = 37 + (domain_length + 2) in
    let password_at = user_at + (user_length + 2) in
    (get_value user_length (drop user_at data_), get_value password_length (drop password_at data_))

-- Where `unpack` raises, the names of the result are unbound at the `return`.
unfoldable pub extract_creds : Bytes → Result (Bytes × Bytes)
unfolding creds_at
extract_creds data_ = elim (unpack_hhhhh (slice 27 37 data_)) [
  | ok lengths ↦ ok (creds_at data_ lengths)
  | raised e ↦ raised Exn.name_error
]

-- the chunks that are still to be received
abbrev pub Pending : Type 0
Pending = List Bytes

abbrev take_chunk : Pending → Result Bytes
take_chunk [] = raised Exn.timeout_error
take_chunk (c ∷ cs) = ok c

abbrev later : Pending → Pending
later [] = []
later (c ∷ cs) = cs

unfoldable pub recv : Handler Pending Bytes
recv = do c ← gets take_chunk; modify later; lift c

unfoldable pub confirm : Bytes
confirm =
    0x03 ∷ 0x00 ∷ 0x00 ∷ 0x13 ∷ 0x0e ∷ 0xd0 ∷ 0x00 ∷ 0x00 ∷ 0x12 ∷ 0x34 ∷ 0x00 ∷ 0x02 ∷ 0x00 ∷ 0x08
    ∷ 0x00 ∷ 0x01 ∷ 0x00 ∷ 0x00 ∷ 0x00 ∷ []

unfoldable pub connect_response : Bytes
connect_response =
    0x03 ∷ 0x00 ∷ 0x00 ∷ 0x7c ∷ 0x02 ∷ 0xf0 ∷ 0x80 ∷ 0x7f ∷ 0x66 ∷ 0x74 ∷ 0x0a ∷ 0x01 ∷ 0x00 ∷ 0x02
    ∷ 0x01 ∷ 0x00 ∷ 0x30 ∷ 0x1a ∷ 0x02 ∷ 0x01 ∷ 0x22 ∷ 0x02 ∷ 0x01 ∷ 0x03 ∷ 0x02 ∷ 0x01 ∷ 0x00
    ∷ 0x02 ∷ 0x01 ∷ 0x01 ∷ 0x02 ∷ 0x01 ∷ 0x00 ∷ 0x02 ∷ 0x01 ∷ 0x01 ∷ 0x02 ∷ 0x03 ∷ 0x00 ∷ 0xff
    ∷ 0xf8 ∷ 0x02 ∷ 0x01 ∷ 0x02 ∷ 0x04 ∷ 0x4e ∷ 0x00 ∷ 0x05 ∷ 0x00 ∷ 0x14 ∷ 0x7c ∷ 0x00 ∷ 0x01
    ∷ 0x2a ∷ 0x14 ∷ 0x76 ∷ 0x0a ∷ 0x01 ∷ 0x01 ∷ 0x00 ∷ 0x01 ∷ 0xc0 ∷ 0x00 ∷ 0x4d ∷ 0x63 ∷ 0x44
    ∷ 0x6e ∷ 0x38 ∷ 0x01 ∷ 0x0c ∷ 0x0e ∷ 0x00 ∷ 0x04 ∷ 0x00 ∷ 0x08 ∷ 0x00 ∷ 0x03 ∷ 0x00 ∷ 0x00
    ∷ 0x00 ∷ 0x03 ∷ 0x00 ∷ 0x02 ∷ 0x0c ∷ 0x0c ∷ 0x00 ∷ 0x00 ∷ 0x00 ∷ 0x00 ∷ 0x00 ∷ 0x00 ∷ 0x00
    ∷ 0x00 ∷ 0x00 ∷ 0x03 ∷ 0x0c ∷ 0x10 ∷ 0x00 ∷ 0xeb ∷ 0x03 ∷ 0x04 ∷ 0x00 ∷ 0xec ∷ 0x03 ∷ 0xed
    ∷ 0x03 ∷ 0xee ∷ 0x03 ∷ 0xef ∷ 0x03 ∷ 0x04 ∷ 0x0c ∷ 0x06 ∷ 0x00 ∷ 0xf0 ∷ 0x03 ∷ 0x08 ∷ 0x0c
    ∷ 0x08 ∷ 0x00 ∷ 0x00 ∷ 0x00 ∷ 0x00 ∷ 0x00 ∷ []

abbrev pub initiator : Bytes
initiator = 0x00 ∷ 0x06 ∷ []

unfoldable pub attach_user_confirm : Bytes
attach_user_confirm =
    (0x03 ∷ 0x00 ∷ 0x00 ∷ 0x0b ∷ 0x02 ∷ 0xf0 ∷ 0x80 ∷ 0x2e ∷ 0x00 ∷ []) ++ initiator

unfoldable pub disconnect : Bytes
disconnect = 0x03 ∷ 0x00 ∷ 0x00 ∷ 0x09 ∷ 0x02 ∷ 0xf0 ∷ 0x80 ∷ 0x21 ∷ 0x80 ∷ []

unfoldable pub join_confirm : ℕ → Bytes
join_confirm channel =
    (0x03 ∷ 0x00 ∷ 0x00 ∷ 0x0f ∷ 0x02 ∷ 0xf0 ∷ 0x80 ∷ 0x3e ∷ 0x00 ∷ [])
    ++ initiator
    ++ 0x03 ∷ channel ∷ 0x03 ∷ channel ∷ []

-- `data[-1]`
unfoldable pub last_byte : Bytes → Result ℕ
last_byte [] = raised Exn.index_error
last_byte (b ∷ []) = ok b
last_byte (b ∷ c ∷ bs) = last_byte (c ∷ bs)

-- What `getpeername` gives is a tuple, which has neither `host` nor `port`.
abbrev tuple_attribute : Handler Pending Peer
tuple_attribute = raise Exn.attribute_error

-- `tls` is how the handshake of the library ends.
module _ (q : Server) (peer : Peer) (tls : Result (Unit {0})) where
  unfoldable pub log_cookie : Bytes → Handler Pending (Unit {0})
  unfolding find extract_cookie decode_replace log
  log_cookie data_ = elim (find (codes "Cookie") data_) [
    | none ↦ skip
    | some i ↦ log q (
        word "action" "stshash"
        ∷ word "mstshash" "success"
        ∷ item "src_ip" (text peer.host)
        ∷ item "src_port" (int peer.port)
        ∷ item "data" (
            dict (
              fields
                (item "stshash" (text (decode_replace (extract_cookie (drop 11 data_)))) ∷ [])))
        ∷ [])
  ]

  -- The arguments of `check_login` are evaluated before it is called.
  unfoldable pub record_login : Bytes → Handler Pending (Unit {0})
  unfolding extract_creds check_bytes check_login
  record_login data_ = do
    creds ← lift (extract_creds data_)
    p ← tuple_attribute
    _ ← check_login q (check_bytes (bytes creds.0)) (check_bytes (bytes creds.1)) p.host p.port
    skip

  unfoldable pub answer_join : Bytes → Handler Pending (Unit {0})
  unfolding last_byte join_confirm
  answer_join data_ = do channel ← lift (last_byte data_); write (join_confirm channel)

  -- The loop over `range(8)`; a message with the byte 64 at 15 ends it.
  unfoldable pub joins : ℕ → Handler Pending (Unit {0})
  unfolding recv record_login answer_join
  joins zero = skip
  joins (suc n) = do
    data_ ← recv
    if ltb 14 (length data_)
        then (do kind ← lift (index data_ 15); if kind == 64 then record_login data_ else joins n)
        else (do answer_join data_; joins n)

  -- the joins of the channels, and the end
  unfoldable pub finish : Handler Pending (Unit {0})
  unfolding joins disconnect
  finish = do suppress (joins 8); write disconnect

  -- behind the second chunk
  unfoldable pub attach : Handler Pending (Unit {0})
  unfolding recv attach_user_confirm finish
  attach = do _ ← recv; _ ← recv; write attach_user_confirm; finish

  -- behind the handshake
  unfoldable pub negotiate : Handler Pending (Unit {0})
  unfolding recv connect_response attach
  negotiate = do _ ← recv; write connect_response; attach

  -- behind the first chunk
  unfoldable pub confirm_and_negotiate : Handler Pending (Unit {0})
  unfolding confirm negotiate
  confirm_and_negotiate = do write confirm; lift tls; negotiate

  unfoldable pub greet : Bytes → Handler Pending (Unit {0})
  unfolding log_cookie confirm_and_negotiate
  greet data_ = do log_cookie data_; confirm_and_negotiate

  unfoldable pub connect : Handler Pending (Unit {0})
  unfolding log recv greet
  connect = do log_connection q peer; data_ ← recv; greet data_

  -- `run` of the thread
  unfoldable pub run : Handler Pending (Unit {0})
  unfolding connect
  run = do suppress connect; lose_connection
