-- ===== src/Base/Port/Busy.antt =====
-- The processes on a port that is in use when `close_port` of base_server.py is called.
use honeypots.Prelude.{ℕ, ◌≡◌, ◌==◌, ◌||◌, refl, Bool, true, false, List, [], ◌∷◌, ◌++◌, arith}
use honeypots.Python.Result.{Result, ok, raised}
use honeypots.Base.{Server}
use honeypots.Base.Port.{
  Process, Event, terminated, killed, could_not_close, Socket, stop, stop_each, stop_process,
  stop_processes, is_free, close_port, report,
}

abbrev pub has_port : ℕ → List ℕ → Bool
has_port port [] = false
has_port port (c ∷ cs) = port == c || has_port port cs

-- a process that can be looked at and has a connection on the port
abbrev pub holds : ℕ → Process → Bool
holds port p = elim p.connections [ ok cs ↦ has_port port cs | raised e ↦ false ]

abbrev pub terminates : ℕ → List Event → Bool
terminates n [] = false
terminates n (terminated m ∷ es) = n == m || terminates n es
terminates n (killed m ∷ es) = terminates n es
terminates n (could_not_close ∷ es) = terminates n es

terminates-left : (n : ℕ) (a b : List Event) → terminates n a ≡ true → terminates n (a ++ b) ≡ true
terminates-left n [] b h = ground (arith, h)
terminates-left n (terminated m ∷ a) b h = ground (arith, h, terminates-left n a b)
terminates-left n (killed m ∷ a) b h = terminates-left n a b h
terminates-left n (could_not_close ∷ a) b h = terminates-left n a b h

terminates-right : (n : ℕ) (a b : List Event) → terminates n b ≡ true → terminates n (a ++ b) ≡ true
terminates-right n [] b h = h
terminates-right n (terminated m ∷ a) b h = ground (arith, terminates-right n a b h)
terminates-right n (killed m ∷ a) b h = terminates-right n a b h
terminates-right n (could_not_close ∷ a) b h = terminates-right n a b h

terminates-stop : (p : Process) (es : List Event) → terminates p.pid (stop p ++ es) ≡ true
unfolding stop
terminates-stop p es = ground arith

terminates-stop_each :
    (port : ℕ) (p : Process) (cs : List ℕ)
    → has_port port cs ≡ true
    → p.may_terminate ≡ true
    → terminates p.pid (stop_each port p cs) ≡ true
unfolding stop_each
terminates-stop_each port p [] h m = ground (arith, h)
terminates-stop_each port p (c ∷ cs) h m =
    ground (arith, h, m, terminates-stop_each port p cs, terminates-stop p (stop_each port p cs))

terminates-stop_process :
    (port : ℕ) (p : Process)
    → holds port p ≡ true
    → p.may_terminate ≡ true
    → terminates p.pid (stop_process port p) ≡ true
unfolding stop_process
terminates-stop_process port p h m = of_connections p.connections refl h
  where
    of_connections :
        (r : Result (List ℕ))
        → p.connections ≡ r
        → (elim r [ ok cs ↦ has_port port cs | raised e ↦ false ]) ≡ true
        → terminates p.pid (elim r [ ok cs ↦ stop_each port p cs | raised e ↦ [] ]) ≡ true
    of_connections (ok cs) e k = terminates-stop_each port p cs k m
    of_connections (raised x) e k = ground (arith, k)

terminates-stop_processes :
    (port : ℕ) (before : List Process) (p : Process) (after : List Process)
    → holds port p ≡ true
    → p.may_terminate ≡ true
    → terminates p.pid (stop_processes port (before ++ p ∷ after)) ≡ true
unfolding stop_processes
terminates-stop_processes port [] p after h m =
    terminates-left p.pid (stop_process port p) (stop_processes port after)
      (terminates-stop_process port p h m)
terminates-stop_processes port (b ∷ before) p after h m =
    terminates-right p.pid (stop_process port b) (stop_processes port (before ++ p ∷ after))
      (terminates-stop_processes port before p after h m)

terminates-report :
    (n : ℕ) (events : List Event) (r : Result Bool)
    → terminates n events ≡ true
    → terminates n (report events r).1 ≡ true
terminates-report n events (ok true) h = h
terminates-report n events (ok false) h = terminates-left n events (could_not_close ∷ []) h
terminates-report n events (raised e) h = h

-- Where the port of the server is in use, each process that can be looked at, has a connection on the
-- port and may be terminated is terminated by `close_port`: whatever other processes stand before or
-- behind it, also such that may not be looked at or terminated, and whatever becomes of `bind`.
pub terminates-close_port :
    (q : Server) (w : Socket) (before : List Process) (p : Process) (after : List Process)
    → w.connects ≡ ok true
    → holds q.port p ≡ true
    → p.may_terminate ≡ true
    → terminates p.pid (close_port q w (before ++ p ∷ after)).1 ≡ true
unfolding close_port
terminates-close_port q w before p after c h m =
    let events = stop_processes q.port (before ++ p ∷ after) in
    rw (c, close_port)
      (terminates-report p.pid events (is_free w events)
        (terminates-stop_processes q.port before p after h m))
