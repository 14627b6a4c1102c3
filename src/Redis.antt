-- ===== src/Redis.antt =====
-- redis_server.py: the protocol object of one connection.
pub mod Command
pub mod Auth
mod Tests
use honeypots.Prelude.{ℕ, ◌++◌, Bool, true, false, Option, none, some, List, [], ◌∷◌, if◌then◌else◌}
use honeypots.Python.Bytes.{Bytes, Text, codes, bytes_eq}
use honeypots.Python.Utf8.{encode}
use honeypots.Python.Value.{Fields, end}
use honeypots.Prelude.Int.{ℤ}
use honeypots.Session.{Handler, ◌>>=◌, ◌>>◌, lift, modify, write, lose_connection, skip}
use honeypots.Base.{Server, Peer, log, log_connection, check_login_}
use honeypots.Helper.{text, check_bytes}
use honeypots.Redis.Command.{get_command, credentials}

-- `_state` and `_variables`
pub record State : Type 0 where
  pub state : Option ℕ
  pub variables : Fields

unfoldable pub connection_made : Server → Peer → Handler State (Unit {0})
unfolding log
connection_made q peer = do
  modify (λ _. record { state = some 1; variables = end })
  log_connection q peer

abbrev check_credentials : Server → Peer → Option (Text × Text) → Handler State (Unit {0})
check_credentials q peer none = skip
check_credentials q peer (some (username, password)) =
    check_login_ q (check_bytes (text username)) (check_bytes (text password)) peer

unfoldable pub parse_data : (ℕ → Option ℕ) → Server → Peer → ℤ → Bytes → Handler State (Unit {0})
unfolding check_bytes
parse_data decimal q peer count data_ = do
  login ← lift (credentials decimal count data_)
  check_credentials q peer login

unfoldable pub data_received : (ℕ → Option ℕ) → Server → Peer → Bytes → Handler State (Unit {0})
unfolding bytes_eq
data_received decimal q peer data_ = do
  let (count, command) = get_command decimal data_
  if bytes_eq command (codes "AUTH")
      then (do parse_data decimal q peer count data_; write (codes "-ERR invalid password\r\n"))
      else write (encode (codes "-ERR unknown command \"" ++ (command ++ codes "\"\r\n")))
  lose_connection
