-- ===== src/Telnet/Logins.antt =====
-- The trace of a telnet connection.
use honeypots.Prelude.{◌≡◌, refl, some, List, [], ◌∷◌, ◌++◌, arith}
use honeypots.Python.Bytes.{Bytes, codes, strip}
use honeypots.Python.Utf8.{decode_replace}
use honeypots.Python.Result.{ok}
use honeypots.Session.{Effect, logged, sent, closed, feed}
use honeypots.Base.{Server, Peer, log, log_connection}
use honeypots.Base.Login.{check_login_lem, login_entry}
use honeypots.Helper.{check_bytes}
use honeypots.Telnet.{State, password, unconnected, connection_made, data_received, session}

-- The trace of the chunks behind the user name: each is logged as a password of that user, and
-- answered by closing the connection.
abbrev pub attempts : Server → Peer → Bytes → List Bytes → List Effect
attempts q peer user [] = []
attempts q peer user (p ∷ ps) =
    logged
      (login_entry q (decode_replace (strip user)) (decode_replace (strip p)) peer.host peer.port)
    ∷ closed
    ∷ attempts q peer user ps

abbrev pub connected : Bytes → State
connected user = record { phase = password; user = some (strip user) }

module _ (q : Server) (peer : Peer) (user : Bytes) where
  feed-attempts :
      (ps : List Bytes)
      → feed (data_received q peer) ps (connected user)
        ≡ (ok tt, connected user, attempts q peer user ps)
  unfolding feed data_received check_bytes
  feed-attempts [] = refl
  feed-attempts (p ∷ ps) = ground (
    arith,
    check_login_lem q (decode_replace (strip user)) (decode_replace (strip p)) peer.host peer.port
        (connected user),
    feed-attempts ps,
  )

-- A telnet client that connects and sends a user name and then any further chunks sees the two
-- prompts; every further chunk is logged as one login of the stripped user name with that stripped
-- chunk as the password and closes the connection, and nothing else happens.
pub session-attempts :
    (q : Server) (peer : Peer) (user : Bytes) (ps : List Bytes)
    → session q peer (user ∷ ps) unconnected ≡ (
      ok tt,
      connected user,
      sent (codes "PC login: ") ∷ (log_connection q peer unconnected).2
          ++ sent (codes "Password: ") ∷ attempts q peer user ps,
    )
unfolding session connection_made feed data_received log
session-attempts q peer user ps = ground (arith, feed-attempts q peer user ps)
