-- ===== src/Rdp/Unlogged.antt =====
-- No login is ever logged by the remote desktop server.
use honeypots.Prelude.{
  ℕ, zero, suc, ◌≡◌, ◌≢◌, refl, false, some, length, ltb, ◌==◌, arith, Bool-cases, Option-cases,
  inl, inr,
}
use honeypots.Python.Bytes.{Bytes, Text, codes, find, bytes_eq}
use honeypots.Python.Dict.{bytes_eq_iff}
use honeypots.Python.Result.{Result, index}
use honeypots.Python.Value.{Fields, text, get, put, update}
use honeypots.Session.{Handler, ◌>>=◌, ◌>>◌, lift, write, suppress, lose_connection}
use honeypots.Session.Entries.{Logs, bind-Logs, after-Logs, suppress-Logs}
use honeypots.Base.{Server, Peer, log, log_connection}
use honeypots.Rdp.{
  Pending, connect_response, attach_user_confirm, disconnect, confirm, recv, log_cookie,
  record_login, answer_join, joins, finish, attach, negotiate, confirm_and_negotiate, greet,
  connect, run, extract_creds, last_byte,
}

-- The entry is not that of a login.
abbrev pub IsNotLogin : Fields → Type 0
IsNotLogin e = get e (codes "action") ≢ some (text (codes "login"))

other_action :
    (t : Text) → bytes_eq t (codes "login") ≡ false → some (text t) ≢ some (text (codes "login"))
other_action t h e = ground (arith, h, e, bytes_eq_iff t (codes "login"))

recv_quiet : Logs IsNotLogin recv
unfolding recv
recv_quiet s = ground arith

module _ (q : Server) (peer : Peer) (tls : Result (Unit {0})) where
  -- the access to `peer.host` raises in front of `check_login`
  record_login_quiet : (data_ : Bytes) → Logs IsNotLogin (record_login q peer tls data_)
  unfolding record_login
  record_login_quiet data_ =
      bind-Logs IsNotLogin (lift (extract_creds data_)) _ (λ s. tt) (λ creds s. tt)

  answer_join_quiet : (data_ : Bytes) → Logs IsNotLogin (answer_join q peer tls data_)
  unfolding answer_join
  answer_join_quiet data_ =
      bind-Logs IsNotLogin (lift (last_byte data_)) _ (λ s. tt) (λ channel s. tt)

  log_cookie_quiet : (data_ : Bytes) → Logs IsNotLogin (log_cookie q peer tls data_)
  unfolding log_cookie log get put update bytes_eq
  log_cookie_quiet data_ s = elim (Option-cases (find (codes "Cookie") data_)) [
    | inl e ↦ rw (e, log_cookie) tt
    | inr (i, e) ↦ rw (e, log_cookie) (other_action (codes "stshash") refl, tt)
  ]

  joins_quiet : (n : ℕ) → Logs IsNotLogin (joins q peer tls n)
  unfolding joins
  joins_quiet zero s = tt
  joins_quiet (suc n) s =
      bind-Logs IsNotLogin recv _ recv_quiet
        (λ data_. elim (Bool-cases (ltb 14 (length data_))) [
          | inl e ↦ rw e (
              bind-Logs IsNotLogin (lift (index data_ 15)) _ (λ s. tt)
                (λ kind. elim (Bool-cases (kind == 64)) [
                  | inl k ↦ rw k (record_login_quiet data_)
                  | inr k ↦ rw k (joins_quiet n)
                ]))
          | inr e ↦ rw e (
              bind-Logs IsNotLogin (answer_join q peer tls data_) _ (answer_join_quiet data_)
                (λ x. joins_quiet n))
        ])
        s

  finish_quiet : Logs IsNotLogin (finish q peer tls)
  unfolding finish
  finish_quiet =
      after-Logs IsNotLogin (suppress (joins q peer tls 8)) (write disconnect)
        (suppress-Logs IsNotLogin (joins q peer tls 8) (joins_quiet 8)) (λ s. tt)

  attach_quiet : Logs IsNotLogin (attach q peer tls)
  unfolding attach
  attach_quiet =
      let confirmed : Handler Pending (Unit {0}) = write attach_user_confirm >> finish q peer tls in
      after-Logs IsNotLogin recv (recv >>= λ _. confirmed) recv_quiet (
        after-Logs IsNotLogin recv confirmed recv_quiet (
          after-Logs IsNotLogin (write attach_user_confirm) (finish q peer tls) (λ s. tt)
            finish_quiet))

  negotiate_quiet : Logs IsNotLogin (negotiate q peer tls)
  unfolding negotiate
  negotiate_quiet =
      after-Logs IsNotLogin recv (write connect_response >> attach q peer tls) recv_quiet
        (after-Logs IsNotLogin (write connect_response) (attach q peer tls) (λ s. tt) attach_quiet)

  greet_quiet : (data_ : Bytes) → Logs IsNotLogin (greet q peer tls data_)
  unfolding greet confirm_and_negotiate
  greet_quiet data_ =
      let negotiated : Handler Pending (Unit {0}) = lift tls >> negotiate q peer tls in
      after-Logs IsNotLogin (log_cookie q peer tls data_) (write confirm >> negotiated)
        (log_cookie_quiet data_)
        (after-Logs IsNotLogin (write confirm) negotiated (λ s. tt)
          (after-Logs IsNotLogin (lift tls) (negotiate q peer tls) (λ s. tt) negotiate_quiet))

  connection_quiet : Logs {S = Pending} IsNotLogin (log_connection q peer)
  unfolding log get put update bytes_eq
  connection_quiet s = (other_action (codes "connection") refl, tt)

  connect_quiet : Logs IsNotLogin (connect q peer tls)
  unfolding connect
  connect_quiet =
      after-Logs IsNotLogin (log_connection q peer) (recv >>= greet q peer tls) connection_quiet
        (bind-Logs IsNotLogin recv (greet q peer tls) recv_quiet greet_quiet)

  -- Whatever a client sends and however the handshake ends, no entry of a login is logged: also the
  -- credentials that were read are lost, since the address is asked of a tuple.
  pub run_unlogged : Logs IsNotLogin (run q peer tls)
  unfolding run
  run_unlogged =
      after-Logs IsNotLogin (suppress (connect q peer tls)) lose_connection
        (suppress-Logs IsNotLogin (connect q peer tls) connect_quiet) (λ s. tt)
