-- ===== src/Base/Tests.antt =====
-- The theorem on `check_login` at a concrete login.
use honeypots.Prelude.{◌≡◌, ◌↔◌, refl, true, false, none, some, [], ◌∷◌}
use honeypots.Python.Bytes.{codes}
use honeypots.Python.Value.{Fields, text, int, get}
use honeypots.Python.Result.{ok}
use honeypots.Session.{logged, pure}
use honeypots.Base.{login_is_correct, check_login}
use honeypots.Base.Samples.{server}
use honeypots.Base.Process.{State, World, server_is_alive, run_server}
use honeypots.Base.Process.Status.{run_server-process}
use honeypots.Base.Login.{check_login_recorded}

check_login_recorded_example :
    (entry : Fields) × (check_login server (codes "test") (codes "no") (codes "10.0.0.1") 7 tt
      ≡ (ok (login_is_correct server (codes "test") (codes "no")), tt {0}, logged entry ∷ []))
    × ((login_is_correct server (codes "test") (codes "no") ≡ true)
        ↔ ((codes "test" ≡ server.username) × (codes "no" ≡ server.password)))
    × (get entry (codes "status") ≡ some (text (codes "failed")))
    × (get entry (codes "username") ≡ some (text (codes "test")))
    × (get entry (codes "password") ≡ some (text (codes "no")))
    × (get entry (codes "src_ip") ≡ some (text (codes "10.0.0.1")))
    × (get entry (codes "src_port") ≡ some (int 7))
    × (get entry (codes "server") ≡ some (text (codes "server")))
    × (get entry (codes "dest_ip") ≡ some (text (codes "0.0.0.0")))
    × (get entry (codes "dest_port") ≡ some (int 389))
unfolding login_is_correct
check_login_recorded_example =
    check_login_recorded server (codes "test") (codes "no") (codes "10.0.0.1") 7 tt

-- The port 8000 is free, the service does not come up, and its process does not end.
abbrev world : World
world = record {
  free_port = 8000;
  port_closes = ok true;
  service_starts = false;
  stays_up = true;
  ends_in_time = false;
}

abbrev idle : State
idle = record { server = server; auto_disabled = false; child = none }

run_server-process_example :
    ((run_server (pure tt) world true true idle).0 ≡ ok (some false))
    × (server_is_alive (run_server (pure tt) world true true idle).1 ≡ true)
    × ((run_server (pure tt) world true true idle).1.server.port ≡ 8000)
run_server-process_example = run_server-process (pure tt) world true true idle refl refl
