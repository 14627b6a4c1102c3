-- ===== src/Vnc.antt =====
-- vnc_server.py: the known passwords and the handshake. The DES cipher is a library's, a parameter.
pub mod Passwords
pub mod Handshake
mod Tests
use honeypots.Prelude.{ℕ, Bool, false, Option, none, some, List, [], ◌∷◌, ◌++◌, ◌==◌, if◌then◌else◌}
use honeypots.Python.Bytes.{Bytes, Text, codes, bytes_eq, unhex, hex}
use honeypots.Python.Dict.{Dict}
use honeypots.Python.Value.{Value, text, int, item, word}
use honeypots.Session.{Handler, ◌>>=◌, ◌>>◌, gets, modify, write, lose_connection, skip, feed}
use honeypots.Base.{Server, Peer, log, log_connection, status_of}
use honeypots.Helper.{Argument, none_, check_bytes}
use honeypots.Vnc.Passwords.{decode, challenge}

-- `_state`
abbrev pub State : Type 0
State = Option ℕ

abbrev in_state : ℕ → State → Bool
in_state n none = false
in_state n (some m) = m == n

abbrev set_state : State → Handler State (Unit {0})
set_state s = modify (λ _. s)

abbrev pub protocol_version : Bytes
protocol_version = codes "RFB 003.008\n"

unfoldable pub connection_made : Server → Peer → Handler State (Unit {0})
unfolding log
connection_made q peer = do write protocol_version; set_state (some 1); log_connection q peer

-- The result of `_q_s.decode(data)` as `check_bytes` takes it.
abbrev argument : Option Text → Argument
argument none = none_
argument (some t) = Argument.text t

-- `_handle_login`. `check_bytes` has returned a text, so its test `password is None` never holds.
unfoldable pub handle_login : Dict Text → Server → Peer → Bytes → Handler State (Unit {0})
unfolding decode check_bytes bytes_eq log
handle_login known q peer data_ =
    let password = check_bytes (argument (decode known data_)) in
    let status = status_of (bytes_eq password q.password) in
    log q (
      word "action" "login"
      ∷ item "status" (text status)
      ∷ item "src_ip" (text peer.host)
      ∷ item "src_port" (int peer.port)
      ∷ item "username" (text [])
      ∷ item "password" (text password)
      ∷ [])

unfoldable pub data_received : Dict Text → Server → Peer → Bytes → Handler State (Unit {0})
unfolding handle_login bytes_eq unhex
data_received known q peer data_ = do
  state ← gets (λ s. s)
  if in_state 1 state
      then (if bytes_eq data_ protocol_version
          then (do set_state (some 2); write (unhex (codes "0102")))
          else skip)
      else if in_state 2 state
      then (if bytes_eq data_ (2 ∷ []) then (do set_state (some 3); write challenge) else skip)
      else if in_state 3 state
      then (do handle_login known q peer data_; lose_connection)
      else lose_connection

unfoldable pub connection_lost : Handler State (Unit {0})
connection_lost = set_state none

-- A connection: it is made, and the chunks arrive.
unfoldable pub session : Dict Text → Server → Peer → List Bytes → Handler State (Unit {0})
session known q peer chunks = do connection_made q peer; feed (data_received known q peer) chunks
