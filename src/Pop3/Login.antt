-- ===== src/Pop3/Login.antt =====
-- A login by USER and PASS on pop3_server.py.
use honeypots.Prelude.{ℕ, ◌≡◌, refl, true, false, none, some, List, [], ◌∷◌}
use honeypots.Python.Bytes.{Bytes, codes, bytes_eq, join, lower, starts_with, upper}
use honeypots.Python.Utf8.{decode_replace}
use honeypots.Python.Result.{ok}
use honeypots.Session.{logged, sent, ◌>>◌}
use honeypots.Base.{Server, Peer, has_option}
use honeypots.Base.Login.{check_login_lem, login_entry}
use honeypots.Helper.{check_bytes}
use honeypots.Pop3.{State, Library, do_user, do_pass, dispatch, process_command}

-- before a login
abbrev pub waiting : State
waiting = record { user = none; blocked = none; mbox = false }

abbrev pub named : Bytes → State
named user = record { user = some user; blocked = none; mbox = false }

module _ (l : Library) (q : Server) (peer : Peer)
    (quiet : has_option q "capture_commands" ≡ false) where
  process_command-user :
      (user : Bytes)
      → l.is_auth_command (codes "USER") ≡ true
      → process_command l q peer (codes "USER") (user ∷ []) waiting
        ≡ (ok tt, named user, sent (l.success_response (codes "USER Ok")) ∷ [])
  unfolding process_command dispatch do_user lower starts_with upper bytes_eq
  process_command-user user h = rw (quiet, h) refl

  process_command-pass :
      (c : ℕ) (user password : Bytes) (words : List Bytes)
      → l.is_auth_command (codes "PASS") ≡ true
      → process_command l q peer (codes "PASS") (password ∷ words) (named (c ∷ user)) ≡ (
        ok tt,
        waiting,
        logged (
              login_entry q
                (decode_replace (c ∷ user))
                (decode_replace (join (codes " ") (password ∷ words)))
                peer.host
                peer.port)
            ∷ sent (l.fail_response (codes "Authentication failed"))
            ∷ [],
      )
  unfolding process_command dispatch do_pass lower starts_with upper bytes_eq check_bytes
  process_command-pass c user password words h =
      rw
        (
          quiet,
          h,
          check_login_lem q (decode_replace (c ∷ user))
              (decode_replace (join (codes " ") (password ∷ words))) peer.host peer.port
              (named (c ∷ user)),
        )
        refl

  -- A client that sends USER with a name that is not empty and then PASS has exactly one login logged,
  -- with that name and with the words of the password joined by spaces, is refused, and the name is
  -- forgotten. USER and PASS are among the commands of the library that need no login, and the
  -- commands are not captured.
  pub process_command-login :
      (c : ℕ) (user password : Bytes) (words : List Bytes)
      → l.is_auth_command (codes "USER") ≡ true
      → l.is_auth_command (codes "PASS") ≡ true
      → (do
        process_command l q peer (codes "USER") ((c ∷ user) ∷ [])
        process_command l q peer (codes "PASS") (password ∷ words))
          waiting
        ≡ (
          ok tt,
          waiting,
          sent (l.success_response (codes "USER Ok"))
              ∷ logged (
                  login_entry q
                    (decode_replace (c ∷ user))
                    (decode_replace (join (codes " ") (password ∷ words)))
                    peer.host
                    peer.port)
              ∷ sent (l.fail_response (codes "Authentication failed"))
              ∷ [],
        )
  process_command-login c user password words u p =
      rw (process_command-user (c ∷ user) u, process_command-pass c user password words p) refl
