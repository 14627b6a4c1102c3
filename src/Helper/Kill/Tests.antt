-- ===== src/Helper/Kill/Tests.antt =====
-- Processes of a machine, among them one that may not be looked at.
use honeypots.Prelude.{◌≡◌, refl, true, false, [], ◌∷◌}
use honeypots.Python.Bytes.{codes, find, join, bytes_eq}
use honeypots.Python.Result.{Exn, ok, raised}
use honeypots.Helper.Kill.{
  Process, terminated, killed, is_server, kill_process, kill_servers, ends_with, clean_all,
}

abbrev server_process : Process
server_process = record {
  pid = 5;
  cmdline = ok (codes "python3" ∷ codes "ssh_server.py" ∷ codes "--custom" ∷ []);
  may_signal = true;
}

abbrev hidden_process : Process
hidden_process = record { pid = 1; cmdline = raised Exn.permission_error; may_signal = false }

kills_server :
    clean_all
      (λ name. server_process ∷ [])
      ((true, codes "ssh_server.py") ∷ (false, codes "old_server.py") ∷ [])
    ≡ terminated 5 ∷ killed 5 ∷ []
unfolding clean_all kill_servers kill_process is_server ends_with find join bytes_eq
kills_server = refl

ends_at_error : kill_servers (codes "ssh_server.py") (hidden_process ∷ server_process ∷ []) ≡ []
unfolding kill_servers kill_process is_server find join
ends_at_error = refl
