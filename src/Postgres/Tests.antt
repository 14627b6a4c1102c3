-- ===== src/Postgres/Tests.antt =====
-- The theorems on postgres_server.py at concrete messages.
use honeypots.Prelude.{◌≡◌, refl, arith, List, [], ◌∷◌, ◌++◌}
use honeypots.Python.Bytes.{Bytes, Text, codes, bytes_eq}
use honeypots.Python.Dict.{get, put}
use honeypots.Python.Result.{ok}
use honeypots.Session.{logged, sent, closed}
use honeypots.Base.{log_connection}
use honeypots.Base.Login.{login_entry}
use honeypots.Base.Samples.{server, peer}
use honeypots.Postgres.{initial, session}
use honeypots.Postgres.Message.{dict_onto}
use honeypots.Postgres.Startup.{startup_message, password_message}
use honeypots.Postgres.Login.{stored, cleartext_request, session-login}

abbrev parameters : List (Text × Text)
parameters = (codes "user", codes "bob") ∷ (codes "database", codes "db") ∷ []

abbrev header : Bytes
header = 0 ∷ 0 ∷ 0 ∷ 33 ∷ 0 ∷ 3 ∷ 0 ∷ 0 ∷ []

abbrev length_ : Bytes
length_ = 0 ∷ 0 ∷ 0 ∷ 7 ∷ []

abbrev ssl_request : Bytes
ssl_request = 0 ∷ 0 ∷ 0 ∷ 8 ∷ []

session-login_example :
    session server peer
      (ssl_request ∷ startup_message header parameters ∷ password_message length_ (codes "pw") ∷ [])
      initial
    ≡ (
      ok tt,
      stored (dict_onto [] parameters) (codes "pw"),
      (log_connection server peer initial).2
          ++ sent (codes "N")
            ∷ sent cleartext_request
            ∷ logged (login_entry server (codes "bob") (codes "pw") peer.host peer.port)
            ∷ closed
            ∷ [],
    )
unfolding dict_onto get put bytes_eq
session-login_example =
    session-login server peer ssl_request header length_ parameters (codes "bob") (codes "pw") refl
      (omega arith) (omega arith) refl refl (omega arith) (omega arith)
