-- ===== src/Base/Process.antt =====
-- `run_server`, `_start_server` and `kill_server` of base_server.py: the life of the process of a
-- server. What the operating system answers is a parameter.
pub mod Status
use honeypots.Prelude.{
  ℕ, Bool, true, false, not, ◌&&◌, ◌||◌, Option, none, some, List, [], ◌∷◌, ltb, if◌then◌else◌,
}
use honeypots.Python.Bytes.{codes, bytes_eq, Text}
use honeypots.Python.Value.{text, int, item, word}
use honeypots.Python.Result.{Result}
use honeypots.Session.{lift, Handler, ◌>>=◌, ◌>>◌, gets, modify, emit, debugged, pure, skip}
use honeypots.Base.{Server, log}

pub data Child : Type 0 where
  running terminated : Child

-- A server with its process, if it was started.
pub record State : Type 0 where
  pub server : Server
  pub auto_disabled : Bool
  pub child : Option Child

-- What `get_free_port`, `close_port` and `service_has_started` give; whether a new process stays up
-- until it is asked for, and whether it ends within the five seconds behind `terminate`.
pub record World : Type 0 where
  pub free_port : ℕ
  pub port_closes : Result Bool
  pub service_starts : Bool
  pub stays_up : Bool
  pub ends_in_time : Bool

abbrev set_port : ℕ → State → State
set_port port s = record s { server = record s.server { port = port } }

abbrev stop : World → Option Child → Option Child
stop w none = none
stop w (some terminated) = some terminated
stop w (some running) = if w.ends_in_time then some terminated else some running

-- `terminate` and `join`, which does not raise a `TimeoutError`: `kill` is never called, and a process
-- that does not end in time goes on.
unfoldable pub kill_server : World → Handler State (Unit {0})
kill_server w = modify (λ s. record s { child = stop w s.child })

unfoldable pub server_is_alive : State → Bool
server_is_alive s = elim s.child [ none ↦ false | some running ↦ true | some terminated ↦ false ]

unfoldable pub start_server : World → Handler State Text
start_server w = do
  modify (λ s. record s { child = some (if w.stays_up then running else terminated) })
  if w.service_starts then pure (codes "success") else (do emit debugged; pure (codes "error"))

-- whether there is a port to start on
unfoldable pub take_port : World → Bool → Handler State Bool
take_port w auto = do
  s ← gets (λ s. s)
  if auto && not s.auto_disabled
      then (if ltb 0 w.free_port then (do modify (set_port w.free_port); pure true) else pure false)
      else lift w.port_closes

-- The body of `run_server` where a process is asked for.
unfoldable pub run_process : World → Bool → Handler State Bool
unfolding bytes_eq log
run_process w auto = do
  run ← take_port w auto
  status ← (if run then start_server w else pure (codes "error"))
  s ← gets (λ s. s)
  log s.server (
      word "action" "process"
      ∷ item "status" (text status)
      ∷ item "src_ip" (text s.server.ip)
      ∷ item "src_port" (int s.server.port)
      ∷ [])
  if bytes_eq status (codes "success") then pure true else (do kill_server w; pure false)

-- `server_main` is that of the subclass, and runs in this process where none is asked for.
unfoldable pub run_server :
    Handler State (Unit {0}) → World → Bool → Bool → Handler State (Option Bool)
run_server server_main w process auto =
    if process
    then (do started ← run_process w auto; pure (some started))
    else (do server_main; pure none)
