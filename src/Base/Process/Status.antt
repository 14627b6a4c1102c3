-- ===== src/Base/Process/Status.antt =====
-- What `run_server` leaves running.
use honeypots.Prelude.{ℕ, ◌≡◌, Bool, true, not, ◌&&◌, ◌||◌, arith, none, some, ltb, if◌then◌else◌}
use honeypots.Python.Bytes.{bytes_eq}
use honeypots.Python.Result.{ok}
use honeypots.Session.{Handler}
use honeypots.Base.{log}
use honeypots.Base.Process.{
  State, World, server_is_alive, kill_server, start_server, take_port, run_process, run_server,
}

-- the port that the server runs on
abbrev pub port_after : World → Bool → State → ℕ
port_after w auto s =
    if auto && not s.auto_disabled && ltb 0 w.free_port then w.free_port else s.server.port

-- whether a process is started; `closes` is the answer of `close_port`
abbrev pub starts : World → Bool → Bool → State → Bool
starts w closes auto s = if auto && not s.auto_disabled then ltb 0 w.free_port else closes

-- A server that is asked to run as a process, and had none, answers true exactly when there was a port
-- to start on and the service was seen in time; the port is the free one where the automatic choice
-- is on and there is one. Behind that a process runs exactly if one was started that stays up, and
-- either the service was seen, or the process does not end within five seconds of `terminate`: such
-- a process is left running, though the answer is false. `close_port` raises nothing.
pub run_server-process :
    (server_main : Handler State (Unit {0})) (w : World) (auto closes : Bool) (s : State)
    → s.child ≡ none
    → w.port_closes ≡ ok closes
    → ((run_server server_main w true auto s).0
        ≡ ok (some (starts w closes auto s && w.service_starts)))
      × (server_is_alive (run_server server_main w true auto s).1
          ≡ starts w closes auto s && (w.stays_up && (w.service_starts || not w.ends_in_time)))
      × ((run_server server_main w true auto s).1.server.port ≡ port_after w auto s)
unfolding run_server run_process take_port start_server kill_server server_is_alive bytes_eq log
run_server-process server_main w auto closes s h c = ground (arith, h, c)
