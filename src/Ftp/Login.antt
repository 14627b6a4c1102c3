-- ===== src/Ftp/Login.antt =====
-- What a password does on ftp_server.py.
use honeypots.Prelude.{
  ◌≡◌, refl, Bool, false, ◌&&◌, Bool-cases, inl, inr, none, some, [], ◌∷◌, if◌then◌else◌,
}
use honeypots.Python.Bytes.{Text, codes, bytes_eq}
use honeypots.Python.Result.{ok, raised, authorization_error}
use honeypots.Session.{logged}
use honeypots.Base.{Server, Peer, login_is_correct}
use honeypots.Base.Login.{check_login_lem, login_entry}
use honeypots.Helper.{check_bytes}
use honeypots.Ftp.{Credentials, Library, State, Phase, unauth, authed, request_avatar_id, ftp_pass}

-- What is documented of the portal: it logs in exactly those whom the check accepts.
abbrev pub AsksTheCheck : Library → Type 0
AsksTheCheck l = (check : Credentials → Bool) (c : Credentials) → l.portal_login check c ≡ check c

abbrev pub named : Text → Phase → State
named user phase = record { user = some user; phase = phase }

-- A password for a user that is not the anonymous one is logged as exactly one login; the client is
-- logged in exactly where the name and the password are the configured ones, and otherwise refused; the
-- name is forgotten. The portal is assumed to log in whom the check accepts.
pub ftp_pass-login :
    (l : Library) (q : Server) (peer : Peer) (user password : Text) (phase : Phase)
    → AsksTheCheck l
    → (l.allow_anonymous && bytes_eq user l.user_anonymous) ≡ false
    → ftp_pass l q peer password (named user phase) ≡ (
      (if login_is_correct q user password
          then ok (codes "USR_LOGGED_IN_PROCEED")
          else raised authorization_error),
      record { user = none; phase = if login_is_correct q user password then authed else unauth },
      logged (login_entry q user password peer.host peer.port) ∷ [],
    )
unfolding ftp_pass check_bytes bytes_eq request_avatar_id
ftp_pass-login l q peer user password phase asks guest =
    elim (Bool-cases (login_is_correct q user password)) [
      | inl e ↦
          rw (check_login_lem q user password peer.host peer.port (named user phase), guest, asks)
            (rw (e, guest) refl)
      | inr e ↦
          rw (check_login_lem q user password peer.host peer.port (named user phase), guest, asks)
            (rw e refl)
    ]
