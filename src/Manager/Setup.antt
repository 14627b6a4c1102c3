-- ===== src/Manager/Setup.antt =====
-- `_set_up_honeypots`, `_stop_servers` and the end of the program.
use honeypots.Prelude.{Bool, true, false, not, ◌&&◌, List, [], ◌∷◌, if◌then◌else◌}
use honeypots.Python.Bytes.{Text, codes, bytes_eq}
use honeypots.Python.Result.{Exn}
use honeypots.Manager.{
  Options, Honeypot, Action, World, ◌>>=◌, ◌>>◌, skip, lift, raise, gets, emit, try_, killed,
  waited,
}
use honeypots.Manager.Start.{start_all_servers, start_configured_servers}

-- the two lists of `running_honeypots`
unfoldable pub good : List Honeypot → List Text
good [] = []
good (h ∷ hs) = let rest = good hs in if h.status then h.name ∷ rest else rest

unfoldable pub bad : List Honeypot → List Text
bad [] = []
bad (h ∷ hs) = let rest = bad hs in if h.status then rest else h.name ∷ rest

-- `input("")` or the fence of the signals: how the wait is over
abbrev await : World → Text → Action (Unit {0})
await w strategy = do emit (waited strategy); lift (w.waits strategy)

-- `await_termination` with its strategy
unfoldable pub await_termination : World → Text → Action (Unit {0})
unfolding bytes_eq
await_termination w strategy =
    if bytes_eq strategy (codes "input")
    then await w (codes "input")
    else if bytes_eq strategy (codes "signal")
    then await w (codes "signal")
    else raise Exn.value_error

abbrev pub is_empty : List Text → Bool
is_empty [] = true
is_empty (x ∷ xs) = false

module _ (w : World) (o : Options) where
  -- `server.kill_server()`, and what it raises is logged
  unfoldable pub kill_one : Honeypot → Action (Unit {0})
  kill_one h =
      try_
        (do emit (killed h.name); if w.kill_raises h.name then raise Exn.attribute_error else skip)

  unfoldable pub kill_each : List Honeypot → Action (Unit {0})
  unfolding kill_one
  kill_each [] = skip
  kill_each (h ∷ hs) = do kill_one h; kill_each hs

  unfoldable pub stop_servers : Action (Unit {0})
  unfolding kill_each
  stop_servers = do hs ← gets (λ s. s.honeypots); kill_each hs

  unfoldable pub wait_for_end : List Honeypot → Action (Unit {0})
  unfolding good await_termination
  wait_for_end hs =
      if not (is_empty (good hs)) && not o.test
      then await_termination w o.termination_strategy
      else skip

  -- the part under `if len(self.honeypots) > 0`
  unfoldable pub wait_and_stop : List Honeypot → Action (Unit {0})
  unfolding wait_for_end stop_servers
  wait_and_stop [] = skip
  wait_and_stop (h ∷ hs) = do wait_for_end (h ∷ hs); stop_servers

  unfoldable pub start_asked : Bool → Action (Unit {0})
  unfolding start_all_servers start_configured_servers bytes_eq
  start_asked auto =
      if bytes_eq o.setup (codes "all")
      then start_all_servers w o auto
      else start_configured_servers w o

  unfoldable pub set_up_honeypots : Bool → Action (Unit {0})
  unfolding start_asked wait_and_stop
  set_up_honeypots auto = do start_asked auto; hs ← gets (λ s. s.honeypots); wait_and_stop hs
