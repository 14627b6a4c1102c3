-- ===== src/Postgres.antt =====
-- postgres_server.py: the startup message, then the password message. What is printed is left out.
pub mod Message
pub mod Startup
pub mod Login
mod Tests
use honeypots.Prelude.{
  ℕ, Bool, true, false, ◌&&◌, Option, none, some, List, [], ◌∷◌, ◌==◌, if◌then◌else◌,
}
use honeypots.Python.Bytes.{Bytes, Text, codes}
use honeypots.Python.Result.{index}
use honeypots.Python.Dict.{Dict, put, contains}
use honeypots.Session.{Handler, ◌>>=◌, ◌>>◌, gets, modify, lift, write, lose_connection, feed, skip}
use honeypots.Base.{Server, Peer, log, log_connection, check_login, check_login_}
use honeypots.Helper.{text, check_bytes}
use honeypots.Postgres.Message.{read_variables, read_password, item}

-- password response message
abbrev pub gss_response : ℕ
gss_response = 112

pub record State : Type 0 where
  pub state : Option ℕ
  pub variables : Dict Text

abbrev pub initial : State
initial = record { state = none; variables = [] }

abbrev in_state : ℕ → State → Bool
in_state n s = elim s.state [ none ↦ false | some m ↦ m == n ]

abbrev set_state : ℕ → Handler State (Unit {0})
set_state n = modify (λ s. record s { state = some n })

unfoldable pub connection_made : Server → Peer → Handler State (Unit {0})
unfolding log
connection_made q peer = do
  modify (λ _. record { state = some 1; variables = [] })
  log_connection q peer

unfoldable pub read_data_custom : Bytes → Handler State (Unit {0})
unfolding read_variables
read_data_custom data_ = do
  found ← lift (read_variables data_)
  modify (λ s. record s { variables = found })

unfoldable pub read_password_custom : Bytes → Handler State (Unit {0})
unfolding read_password put
read_password_custom data_ = do
  password ← lift (read_password data_)
  modify (λ s. record s { variables = put s.variables (codes "password") password })

unfoldable pub login : Server → Peer → Bytes → Handler State (Unit {0})
unfolding read_password_custom check_bytes
login q peer data_ = do
  read_password_custom data_
  username ← (λ s. lift (item s.variables (codes "user")) s)
  password ← (λ s. lift (item s.variables (codes "password")) s)
  check_login_ q (check_bytes (text username)) (check_bytes (text password)) peer

unfoldable pub data_received : Server → Peer → Bytes → Handler State (Unit {0})
unfolding read_data_custom login contains
data_received q peer data_ = do
  s ← gets (λ s. s)
  if in_state 1 s
      then (do set_state 2; write (codes "N"))
      else if in_state 2 s
      then (do
        read_data_custom data_
        set_state 3
        write (0x52 ∷ 0 ∷ 0 ∷ 0 ∷ 8 ∷ 0 ∷ 0 ∷ 0 ∷ 3 ∷ []))
      else if in_state 3 s
      then (do
        message_type ← lift (index data_ 0)
        if message_type == gss_response && contains s.variables (codes "user")
            then login q peer data_
            else skip
        lose_connection)
      else lose_connection

unfoldable pub connection_lost : Handler State (Unit {0})
connection_lost = modify (λ _. record { state = some 1; variables = [] })

-- A connection: it is made, and the chunks arrive.
unfoldable pub session : Server → Peer → List Bytes → Handler State (Unit {0})
session q peer chunks = do connection_made q peer; feed (data_received q peer) chunks
