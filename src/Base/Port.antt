-- ===== src/Base/Port.antt =====
-- `close_port` of base_server.py: what it does to the processes of the machine, and its answer.
pub mod Busy
mod Tests
use honeypots.Prelude.{ℕ, Bool, true, false, not, ◌==◌, List, [], ◌∷◌, ◌++◌, if◌then◌else◌}
use honeypots.Python.Result.{
  Exn, Result, ok, raised, permission_error, connection_reset, timeout_error,
}
use honeypots.Base.{Server}

-- A process as psutil shows it: the local ports of its connections, or the error that asking for them
-- raises; whether `terminate` is allowed; whether it ends within the five seconds.
pub record Process : Type 0 where
  pub pid : ℕ
  pub connections : Result (List ℕ)
  pub may_terminate : Bool
  pub ends_in_time : Bool

pub data Event : Type 0 where
  terminated killed : ℕ → Event
  could_not_close : Event

-- The answers of the socket: the first `connect_ex`, which raises for a port out of range; `bind` and
-- the second `connect_ex` behind what was done to the processes.
pub record Socket : Type 0 where
  pub connects : Result Bool
  pub bind : List Event → Result (Unit {0})
  pub connects_again : List Event → Result Bool

-- `terminate`, and `kill` where the process does not end in time
unfoldable pub stop : Process → List Event
stop p = if p.ends_in_time then terminated p.pid ∷ [] else terminated p.pid ∷ killed p.pid ∷ []

-- The loop over the connections of a process; an error of `terminate` ends it.
unfoldable pub stop_each : ℕ → Process → List ℕ → List Event
unfolding stop
stop_each port p [] = []
stop_each port p (c ∷ cs) =
    let rest = stop_each port p cs in
    if port == c then (if p.may_terminate then stop p ++ rest else []) else rest

unfoldable pub stop_process : ℕ → Process → List Event
unfolding stop_each
stop_process port p = elim p.connections [ ok cs ↦ stop_each port p cs | raised e ↦ [] ]

unfoldable pub stop_processes : ℕ → List Process → List Event
unfolding stop_process
stop_processes port [] = []
stop_processes port (p ∷ ps) = stop_process port p ++ stop_processes port ps

abbrev is_os_error : Exn → Bool
is_os_error permission_error = true
is_os_error connection_reset = true
is_os_error timeout_error = true
is_os_error _ = false

-- `with suppress(OSError):`, behind which the answer is false
abbrev suppressed : Exn → Result Bool
suppressed e = if is_os_error e then ok false else raised e

-- the second half
unfoldable pub is_free : Socket → List Event → Result Bool
is_free w events = elim (w.bind events) [
  | raised e ↦ suppressed e
  | ok x ↦ elim (w.connects_again events) [
    | raised e ↦ suppressed e
    | ok connected ↦ ok (not connected)
  ]
]

abbrev pub report : List Event → Result Bool → Result Bool × List Event
report events (ok true) = (ok true, events)
report events (ok false) = (ok false, events ++ could_not_close ∷ [])
report events (raised e) = (raised e, events)

unfoldable pub close_port : Server → Socket → List Process → Result Bool × List Event
unfolding stop_processes is_free
close_port q w ps = elim w.connects [
  | raised e ↦ (raised e, [])
  | ok in_use ↦
      let events = if in_use then stop_processes q.port ps else [] in
      report events (is_free w events)
]
