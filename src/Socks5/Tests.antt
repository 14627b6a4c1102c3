-- ===== src/Socks5/Tests.antt =====
-- The theorems on socks5_server.py at concrete connections.
use honeypots.Prelude.{◌≡◌, refl, [], ◌∷◌, ◌++◌}
use honeypots.Python.Bytes.{codes}
use honeypots.Python.Utf8.{decode_replace}
use honeypots.Python.Result.{ok}
use honeypots.Session.{logged, sent, closed}
use honeypots.Base.{log_connection}
use honeypots.Base.Login.{login_entry}
use honeypots.Base.Samples.{server, peer}
use honeypots.Socks5.{chunk, mem, handle}
use honeypots.Socks5.Login.{greeting, auth_request, none_left, handle-login}

handle-login_example :
    handle server peer
      (chunk (greeting (0 ∷ 2 ∷ [])) ∷ chunk (auth_request (codes "user") (codes "secret")) ∷ [])
    ≡ (
      ok tt,
      [],
      (log_connection server peer none_left).2
          ++ sent (5 ∷ 2 ∷ [])
            ∷ logged (login_entry server (codes "user") (codes "secret") peer.host peer.port)
            ∷ closed
            ∷ [],
    )
unfolding mem decode_replace
handle-login_example = handle-login server peer (codes "user") (codes "secret") (0 ∷ 2 ∷ []) refl
