-- ===== src/Ldap.antt =====
-- ldap_server.py: the protocol object of one connection.
pub mod Packet
pub mod Bind
pub mod Limit
mod Tests
use honeypots.Prelude.{
  ℕ, Bool, true, false, not, ◌||◌, Option, none, some, List, [], ◌==◌, if◌then◌else◌,
}
use honeypots.Python.Bytes.{Bytes, codes, unhex, bytes_eq}
use honeypots.Session.{Handler, ◌>>=◌, ◌>>◌, gets, modify, write, lose_connection, skip, feed}
use honeypots.Base.{Server, Peer, log, log_connection, check_login, check_login_}
use honeypots.Ldap.Packet.{parse_ldap_packet}

-- `_state`
abbrev pub State : Type 0
State = Option ℕ

abbrev in_state : ℕ → State → Bool
in_state n none = false
in_state n (some m) = m == n

abbrev set_state : State → Handler State (Unit {0})
set_state s = modify (λ _. s)

unfoldable pub connection_made : Server → Peer → Handler State (Unit {0})
unfolding log
connection_made q peer = do set_state (some 1); log_connection q peer

-- `_check_login`
unfoldable pub check_packet : Server → Peer → Bytes → Handler State (Unit {0})
unfolding bytes_eq
check_packet q peer data_ =
    let creds = parse_ldap_packet data_ in
    if not (bytes_eq creds.0 []) || not (bytes_eq creds.1 [])
    then check_login_ q creds.0 creds.1 peer
    else skip

unfoldable pub data_received : Server → Peer → Bytes → Handler State (Unit {0})
unfolding unhex check_packet
data_received q peer data_ = do
  state ← gets (λ s. s)
  if in_state 1 state
      then (do
        set_state (some 2)
        check_packet q peer data_
        write (unhex (codes "300c02010165070a013204000400")))
      else if in_state 2 state
      then (do
        set_state (some 3)
        check_packet q peer data_
        write (unhex (codes "300c02010265070a013204000400")))
      else lose_connection

unfoldable pub connection_lost : Handler State (Unit {0})
connection_lost = set_state none

-- A connection: it is made, and the chunks arrive.
unfoldable pub session : Server → Peer → List Bytes → Handler State (Unit {0})
session q peer chunks = do connection_made q peer; feed (data_received q peer) chunks
