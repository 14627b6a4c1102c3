-- ===== src/Base/Port/Tests.antt =====
-- A machine on which another process holds the port of the server.
use honeypots.Prelude.{◌≡◌, refl, true, false, [], ◌∷◌}
use honeypots.Python.Result.{Exn, ok, raised}
use honeypots.Base.Samples.{server}
use honeypots.Base.Port.{Process, Socket, close_port}
use honeypots.Base.Port.Busy.{terminates, terminates-close_port}

abbrev socket : Socket
socket = record { connects = ok true; bind = λ events. ok tt; connects_again = λ events. ok false }

-- A process that may not be looked at.
abbrev hidden : Process
hidden = record {
  pid = 1;
  connections = raised Exn.permission_error;
  may_terminate = false;
  ends_in_time = false;
}

abbrev other : Process
other = record { pid = 7; connections = ok (80 ∷ []); may_terminate = true; ends_in_time = true }

abbrev holder : Process
holder = record {
  pid = 42;
  connections = ok (server.port ∷ []);
  may_terminate = true;
  ends_in_time = false;
}

terminates-close_port_example :
    terminates 42 (close_port server socket (hidden ∷ other ∷ holder ∷ [])).1 ≡ true
terminates-close_port_example =
    terminates-close_port server socket (hidden ∷ other ∷ []) holder [] refl refl refl
