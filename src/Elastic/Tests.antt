-- ===== src/Elastic/Tests.antt =====
-- Clients that send a name and a password.
use honeypots.Prelude.{◌≡◌, refl, some, [], arith}
use honeypots.Python.Bytes.{Text, codes, bytes_eq}
use honeypots.Python.Result.{ok, raised, Exn}
use honeypots.Base.{login_is_correct, status_of}
use honeypots.Base.Samples.{server, peer}
use honeypots.Elastic.{Request, log_login, do_get, auth_key}
use honeypots.Elastic.Login.{basic_header, BeginsWith, do_get-login, do_get_colon}

abbrev request : Text → Text → Request
request u p = record {
  requestline = codes "GET / HTTP/1.1\r\n";
  path_of = ok (codes "/");
  headers = [];
  authorization = some (basic_header u p);
}

do_get-login_example :
    BeginsWith
      (log_login server peer
        (status_of (login_is_correct server (codes "test") (codes "x")))
        (codes "test")
        (codes "x"))
      (do_get server peer (request (codes "test") (codes "x")))
do_get-login_example =
    do_get-login server peer (request (codes "test") (codes "x")) (codes "test") (codes "x") refl
      (ground arith, ground arith) (ground arith, ground arith) (ground arith, ground arith)
      (ground arith, ground arith)

do_get_colon_example :
    do_get server peer (request (codes "a") (codes "b:c:d")) ≡ (raised Exn.value_error, [])
do_get_colon_example =
    do_get_colon server peer (request (codes "a") (codes "b:c:d")) (codes "a") (codes "b")
      (codes "c:d") refl (ground arith, ground arith) (ground arith, ground arith) (ground arith)
      (unfold auth_key bytes_eq in refl)
