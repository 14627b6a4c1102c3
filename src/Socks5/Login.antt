-- ===== src/Socks5/Login.antt =====
-- The bytes of a client that logs in, and what the server makes of them.
use honeypots.Prelude.{
  ℕ, ◌≡◌, true, false, List, [], ◌∷◌, ◌++◌, length, length-append, take-append_self,
  drop-append_self, arith,
}
use honeypots.Python.Bytes.{Bytes}
use honeypots.Python.Utf8.{decode_replace}
use honeypots.Python.Result.{ok}
use honeypots.Session.{logged, sent, closed}
use honeypots.Base.{Server, Peer, log, log_connection}
use honeypots.Base.Login.{check_login_lem, login_entry}
use honeypots.Helper.{check_bytes}
use honeypots.Socks5.{Arrival, chunk, recv, recv_field, mem, check_user_pw_auth, greet, handle}

-- the request of RFC 1929
abbrev pub auth_request : Bytes → Bytes → Bytes
auth_request u p = 1 ∷ length u ∷ (u ++ length p ∷ p)

-- the greeting of RFC 1928
abbrev pub greeting : Bytes → Bytes
greeting methods = 5 ∷ length methods ∷ methods

recv-append :
    (xs : Bytes) (y : ℕ) (ys : Bytes) (rest : List Arrival)
    → recv (length xs) (chunk (xs ++ y ∷ ys) ∷ rest) ≡ (ok xs, chunk (y ∷ ys) ∷ rest, [])
unfolding recv
recv-append xs y ys rest = ground (
  arith,
  length-append {0} xs (y ∷ ys),
  take-append_self xs (y ∷ ys),
  drop-append_self xs (y ∷ ys),
)

recv_last :
    (xs : Bytes) (rest : List Arrival) → recv (length xs) (chunk xs ∷ rest) ≡ (ok xs, rest, [])
unfolding recv
recv_last xs rest = ground arith

-- a field of the request that is followed by another byte
recv_field-append :
    (xs : Bytes) (y : ℕ) (ys : Bytes) (rest : List Arrival)
    → recv_field (chunk (length xs ∷ (xs ++ y ∷ ys)) ∷ rest) ≡ (ok xs, chunk (y ∷ ys) ∷ rest, [])
unfolding recv_field
recv_field-append [] y ys rest = ground arith
recv_field-append (x ∷ xs) y ys rest = ground (arith, recv-append (x ∷ xs) y ys rest)

-- the last field, when nothing else arrives
recv_field_last : (xs : Bytes) → recv_field (chunk (length xs ∷ xs) ∷ []) ≡ (ok xs, [], [])
unfolding recv_field
recv_field_last [] = ground arith
recv_field_last (x ∷ xs) = ground (arith, recv_last (x ∷ xs) [])

abbrev pub none_left : List Arrival
none_left = []

module _ (q : Server) (peer : Peer) (u p : Bytes) where
  check_user_pw_auth-request : check_user_pw_auth q peer (chunk (auth_request u p) ∷ []) ≡ (
    ok tt,
    [],
    logged (login_entry q (decode_replace u) (decode_replace p) peer.host peer.port) ∷ [],
  )
  unfolding check_user_pw_auth check_bytes recv
  check_user_pw_auth-request = ground (
    arith,
    recv_field-append u (length p) p [],
    recv_field_last p,
    check_login_lem q (decode_replace u) (decode_replace p) peer.host peer.port none_left,
  )

  greet-request :
      (methods : Bytes)
      → mem 2 methods ≡ true
      → greet q peer (chunk (greeting methods) ∷ chunk (auth_request u p) ∷ []) ≡ (
        ok tt,
        [],
        sent (5 ∷ 2 ∷ [])
            ∷ logged (login_entry q (decode_replace u) (decode_replace p) peer.host peer.port)
            ∷ [],
      )
  unfolding greet recv mem
  greet-request [] h = cc
  greet-request (m ∷ ms) h =
      ground (arith, recv_last (m ∷ ms) (chunk (auth_request u p) ∷ []), check_user_pw_auth-request)

  -- A client that offers the user/password method, whose greeting arrives as one piece and whose request
  -- of RFC 1929 arrives as another, gets the method selected; exactly one login is logged, with the
  -- decoded user name and password, and the connection is closed.
  pub handle-login :
      (methods : Bytes)
      → mem 2 methods ≡ true
      → handle q peer (chunk (greeting methods) ∷ chunk (auth_request u p) ∷ []) ≡ (
        ok tt,
        [],
        (log_connection q peer none_left).2
            ++ sent (5 ∷ 2 ∷ [])
              ∷ logged (login_entry q (decode_replace u) (decode_replace p) peer.host peer.port)
              ∷ closed
              ∷ [],
      )
  unfolding handle log
  handle-login methods h = ground (arith, greet-request methods h)

module _ (q : Server) (peer : Peer) where
  -- A client whose methods do not include user/password gets no answer and no login is logged: the
  -- connection is closed, whatever else the client sends.
  pub handle_no_method :
      (m : ℕ) (ms : Bytes) (rest : List Arrival)
      → mem 2 (m ∷ ms) ≡ false
      → (handle q peer (chunk (greeting (m ∷ ms)) ∷ rest)).2
        ≡ (log_connection q peer none_left).2 ++ closed ∷ []
  unfolding handle greet log recv
  handle_no_method m ms rest h = ground (arith, recv_last (m ∷ ms) rest)
