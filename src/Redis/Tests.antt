-- ===== src/Redis/Tests.antt =====
-- The theorem on redis_server.py at a concrete command.
use honeypots.Prelude.{ℕ, ◌-◌, ◌≡◌, arith, Option, some, [], ◌∷◌}
use honeypots.Python.Bytes.{codes}
use honeypots.Python.Value.{end}
use honeypots.Python.Result.{ok}
use honeypots.Session.{logged, sent, closed}
use honeypots.Base.Login.{login_entry}
use honeypots.Base.Samples.{server, peer}
use honeypots.Redis.{State, data_received}
use honeypots.Redis.Auth.{auth, ReadsDigits, data_received-auth}

abbrev decimal : ℕ → Option ℕ
decimal c = some (c - 48)

decimal-ReadsDigits : ReadsDigits decimal
decimal-ReadsDigits d h = ground arith

abbrev connected : State
connected = record { state = some 1; variables = end }

-- the password is too long to be logged
data_received-auth_example :
    data_received decimal server peer (auth (codes "bob") (codes "0123456789")) connected ≡ (
      ok tt,
      connected,
      logged (login_entry server (codes "bob") [] peer.host peer.port)
          ∷ sent (codes "-ERR invalid password\r\n")
          ∷ closed
          ∷ [],
    )
data_received-auth_example =
    data_received-auth decimal decimal-ReadsDigits server peer (codes "bob") (codes "0123456789")
      (omega arith) (omega arith) connected
