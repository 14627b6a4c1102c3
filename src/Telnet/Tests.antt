-- ===== src/Telnet/Tests.antt =====
-- The theorem on telnet_server.py at a concrete connection.
use honeypots.Prelude.{◌≡◌, List, [], ◌∷◌, ◌++◌}
use honeypots.Python.Bytes.{Bytes, codes}
use honeypots.Python.Result.{ok}
use honeypots.Session.{sent}
use honeypots.Base.{log_connection}
use honeypots.Base.Samples.{server, peer}
use honeypots.Telnet.{unconnected, session}
use honeypots.Telnet.Logins.{attempts, connected, session-attempts}

abbrev lines : List Bytes
lines = codes "pw\r\n" ∷ codes "other\r\n" ∷ []

session-attempts_example : session server peer (codes "root\r\n" ∷ lines) unconnected ≡ (
  ok tt,
  connected (codes "root\r\n"),
  sent (codes "PC login: ") ∷ (log_connection server peer unconnected).2
      ++ sent (codes "Password: ") ∷ attempts server peer (codes "root\r\n") lines,
)
session-attempts_example = session-attempts server peer (codes "root\r\n") lines
