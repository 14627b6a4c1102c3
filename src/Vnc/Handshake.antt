-- ===== src/Vnc/Handshake.antt =====
-- A VNC connection from the handshake to the login.
use honeypots.Prelude.{◌≡◌, none, some, List, [], ◌∷◌, ◌++◌, arith}
use honeypots.Python.Bytes.{Bytes, Text, codes, bytes_eq, unhex}
use honeypots.Python.Dict.{Dict}
use honeypots.Python.Value.{Fields, text, int, item, word, fields, update}
use honeypots.Session.{Effect, logged, sent, closed, feed}
use honeypots.Base.{Server, Peer, log, log_connection, server_items, status_of}
use honeypots.Helper.{check_bytes}
use honeypots.Vnc.Passwords.{decode, challenge}
use honeypots.Vnc.{State, connection_made, handle_login, data_received, session, protocol_version}

-- the entry of a login attempt
abbrev pub login_entry : Server → Peer → Text → Text → Fields
login_entry q peer status password =
    update
      (fields (
        word "action" "login"
        ∷ item "status" (text status)
        ∷ item "src_ip" (text peer.host)
        ∷ item "src_port" (int peer.port)
        ∷ item "username" (text [])
        ∷ item "password" (text password)
        ∷ []))
      (server_items q)

-- what the client sees and the log holds up to the login
abbrev pub opening : Server → Peer → List Effect
opening q peer =
    (sent protocol_version ∷ (log_connection q peer none_state).2)
    ++ sent (0x01 ∷ 0x02 ∷ []) ∷ sent challenge ∷ []
  where
    none_state : State
    none_state = none

abbrev pub chunks : Bytes → List Bytes
chunks response = protocol_version ∷ (2 ∷ []) ∷ response ∷ []

module _ (known : Dict Text) (q : Server) (peer : Peer) (response : Bytes) where
  -- A client that completes the handshake with the response of a known password has exactly one login
  -- logged, with that password and with the status of its comparison with the configured one, and is
  -- disconnected.
  pub session-known :
      (password : Text)
      → decode known response ≡ some password
      → (session known q peer (chunks response) none).2
        ≡ opening q peer
          ++ logged (login_entry q peer (status_of (bytes_eq password q.password)) password)
            ∷ closed
            ∷ []
  unfolding session connection_made feed data_received handle_login check_bytes bytes_eq log unhex
  session-known password h = ground (arith, h)

  -- A response that no known password gives is logged as the password `None`, whatever the response
  -- is: the branch of the code that would log it in hexadecimal is never taken. Where the configured
  -- password is `None`, such a login even counts as a success.
  pub session_unknown :
      decode known response ≡ none
      → (session known q peer (chunks response) none).2
        ≡ opening q peer
          ++ logged
              (login_entry q peer (status_of (bytes_eq (codes "None") q.password)) (codes "None"))
            ∷ closed
            ∷ []
  unfolding session connection_made feed data_received handle_login check_bytes bytes_eq log unhex
  session_unknown h = ground (arith, h)
