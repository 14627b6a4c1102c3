-- ===== src/Postgres/Login.antt =====
-- A whole postgres connection, as a client plays it.
use honeypots.Prelude.{◌≡◌, true, some, none, List, [], ◌∷◌, ◌++◌, length, arith}
use honeypots.Python.Bytes.{Bytes, Text, codes, bytes_eq}
use honeypots.Python.Utf8.{decode}
use honeypots.Python.Utf8.RoundTrip.{IsAscii}
use honeypots.Python.Result.{ok, raised, unicode_error}
use honeypots.Python.Dict.{Dict, get, put, contains, get-put}
use honeypots.Session.{logged, sent, closed, feed}
use honeypots.Base.{Server, Peer, log, log_connection}
use honeypots.Base.Login.{check_login_lem, login_entry}
use honeypots.Helper.{check_bytes}
use honeypots.Postgres.Message.{dict_onto, read_variables, read_password, item}
use honeypots.Postgres.Startup.{
  ArePlain, IsPlain, startup_message, password_message, read_variables-startup,
  read_password-message,
}
use honeypots.Postgres.{
  State, initial, connection_made, data_received, login, read_data_custom, read_password_custom,
  session,
}

contains-get : (d : Dict Text) (k u : Text) → get d k ≡ some u → contains d k ≡ true
unfolding get contains
contains-get [] k u h = cc
contains-get ((j, v) ∷ d) k u h = ground (arith, contains-get d k u)

abbrev ready : Dict Text → State
ready d = record { state = some 3; variables = d }

abbrev pub stored : Dict Text → Text → State
stored d p = record { state = some 3; variables = put d (codes "password") p }

module _ (q : Server) (peer : Peer) (d : Dict Text) (u p : Text) (message : Bytes) where
  login_lem :
      get d (codes "user") ≡ some u
      → read_password message ≡ ok p
      → login q peer message (ready d)
        ≡ (ok tt, stored d p, logged (login_entry q u p peer.host peer.port) ∷ [])
  unfolding login read_password_custom item check_bytes bytes_eq
  login_lem hu hp = ground (
    arith,
    get-put d (codes "password") (codes "user") p,
    get-put d (codes "password") (codes "password") p,
    check_login_lem q u p peer.host peer.port (stored d p),
  )

-- the server's answer to the startup message
abbrev pub cleartext_request : Bytes
cleartext_request = 0x52 ∷ 0 ∷ 0 ∷ 0 ∷ 8 ∷ 0 ∷ 0 ∷ 0 ∷ 3 ∷ []

-- A postgres client whose three messages arrive one by one, first any message (the SSL request), then a
-- startup message of ASCII parameters with a user among them, then a password message, the length
-- bytes of both being ASCII and the password ASCII without a zero, is answered `N` and the request for
-- a clear text password; exactly one login is logged, with that user and that password, and the
-- connection is closed.
pub session-login :
    (q : Server) (peer : Peer) (first header length_ : Bytes) (ps : List (Text × Text)) (u p : Text)
    → length header ≡ 8
    → IsAscii header
    → ArePlain ps
    → get (dict_onto [] ps) (codes "user") ≡ some u
    → length length_ ≡ 4
    → IsAscii length_
    → IsPlain p
    → session q peer (first ∷ startup_message header ps ∷ password_message length_ p ∷ []) initial
      ≡ (
        ok tt,
        stored (dict_onto [] ps) p,
        (log_connection q peer initial).2
            ++ sent (codes "N")
              ∷ sent cleartext_request
              ∷ logged (login_entry q u p peer.host peer.port)
              ∷ closed
              ∷ [],
      )
unfolding session connection_made feed data_received read_data_custom log
session-login q peer first header length_ ps u p l a h hu l' a' h' = ground (
  arith,
  read_variables-startup header ps l a h,
  contains-get (dict_onto [] ps) (codes "user") u hu,
  login_lem q peer (dict_onto [] ps) u p (password_message length_ p) hu
      (read_password-message length_ p l' a' h'),
)

-- A second message that is not UTF-8 as a whole (the four length bytes are part of what is decoded,
-- so this is every startup message whose length has a byte from 128 up, unless it continues a
-- character) makes the handler raise `UnicodeDecodeError`: nothing more is written and no login is
-- logged.
pub session_undecodable :
    (q : Server) (peer : Peer) (first startup : Bytes) (rest : List Bytes)
    → decode startup ≡ none
    → ((session q peer (first ∷ startup ∷ rest) initial).0 ≡ raised unicode_error)
      × ((session q peer (first ∷ startup ∷ rest) initial).2
          ≡ (log_connection q peer initial).2 ++ sent (codes "N") ∷ [])
unfolding session connection_made feed data_received read_data_custom read_variables log
session_undecodable q peer first startup rest h = ground (arith, h)
