-- ===== src/Ftp/Tests.antt =====
-- The theorem on ftp_server.py at a concrete login.
use honeypots.Prelude.{◌≡◌, refl, false, none, [], ◌∷◌, ◌++◌}
use honeypots.Python.Bytes.{codes, bytes_eq}
use honeypots.Python.Result.{ok}
use honeypots.Session.{logged, skip}
use honeypots.Base.{login_is_correct}
use honeypots.Base.Login.{login_entry}
use honeypots.Base.Samples.{server, peer}
use honeypots.Ftp.{Library, authed, ftp_pass, unauth}
use honeypots.Ftp.Login.{AsksTheCheck, named, ftp_pass-login}

abbrev library : Library
library = record {
  reply = λ c t. c ++ t;
  welcome_message = codes "ProFTPD 1.2.10";
  allow_anonymous = false;
  user_anonymous = codes "anonymous";
  portal_login = λ check c. check c;
  upper = λ t. t;
  process_command = λ c ps. skip;
}

library-AsksTheCheck : AsksTheCheck library
library-AsksTheCheck check c = refl

ftp_pass-login_example : ftp_pass library server peer (codes "pw") (named (codes "test") unauth) ≡ (
  ok (codes "USR_LOGGED_IN_PROCEED"),
  record { user = none; phase = authed },
  logged (login_entry server (codes "test") (codes "pw") peer.host peer.port) ∷ [],
)
unfolding login_is_correct bytes_eq
ftp_pass-login_example =
    ftp_pass-login library server peer (codes "test") (codes "pw") unauth library-AsksTheCheck refl
