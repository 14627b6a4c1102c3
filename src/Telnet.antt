-- ===== src/Telnet.antt =====
-- telnet_server.py: a user name, then a password.
pub mod Logins
mod Tests
use honeypots.Prelude.{Option, none, some, List}
use honeypots.Python.Bytes.{Bytes, codes, strip}
use honeypots.Session.{Handler, ◌>>=◌, ◌>>◌, gets, modify, write, lose_connection, feed}
use honeypots.Base.{Server, Peer, log, log_connection, check_login, check_login_}
use honeypots.Helper.{Argument, bytes, none_, check_bytes}

-- `_state`: `None`, `b"Username"` or `b"Password"`
pub data Phase : Type 0 where
  unset username password : Phase

-- `_pass` is never assigned but `None`
pub record State : Type 0 where
  pub phase : Phase
  pub user : Option Bytes

abbrev pub unconnected : State
unconnected = record { phase = unset; user = none }

unfoldable pub connection_made : Server → Peer → Handler State (Unit {0})
unfolding log
connection_made q peer = do
  modify (λ _. unconnected)
  write (codes "PC login: ")
  modify (λ s. record s { phase = username })
  log_connection q peer

abbrev argument : Option Bytes → Argument
argument none = none_
argument (some b) = bytes b

unfoldable pub in_phase : Server → Peer → Bytes → Phase → Handler State (Unit {0})
unfolding check_bytes
in_phase q peer data_ username = do
  modify (λ _. record { phase = password; user = some data_ })
  write (codes "Password: ")
in_phase q peer data_ password = do
  user ← gets (λ s. s.user)
  check_login_ q (check_bytes (argument user)) (check_bytes (bytes data_)) peer
  lose_connection
in_phase q peer data_ unset = lose_connection

unfoldable pub data_received : Server → Peer → Bytes → Handler State (Unit {0})
unfolding strip in_phase
data_received q peer raw = do
  let data_ = strip raw
  phase ← gets (λ s. s.phase)
  in_phase q peer data_ phase

unfoldable pub connection_lost : Handler State (Unit {0})
connection_lost = modify (λ _. unconnected)

-- A connection: it is made, and the chunks arrive.
unfoldable pub session : Server → Peer → List Bytes → Handler State (Unit {0})
session q peer chunks = do connection_made q peer; feed (data_received q peer) chunks
