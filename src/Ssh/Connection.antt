-- ===== src/Ssh/Connection.antt =====
-- `handle_connection` of ssh_server.py, and the handlers of `SSHHandle` that only answer.
use honeypots.Prelude.{Bool, true, false, List, if◌then◌else◌}
use honeypots.Python.Bytes.{Text, codes}
use honeypots.Python.Result.{Exn, Result, ok, raised, connection_reset, eof_error, type_error}
use honeypots.Session.{Handler, ◌>>◌, emit, debugged, raise, skip}
use honeypots.Base.{Server, Peer, log_connection, has_option}
use honeypots.Ssh.Keys.{Arrival}
use honeypots.Ssh.{Reply, open_succeeded, handle_interactive_session}

unfoldable pub get_allowed_auths : Text
get_allowed_auths = codes "password,publickey"

unfoldable pub check_channel_shell_request : Bool
check_channel_shell_request = true

unfoldable pub check_channel_direct_tcpip_request : Reply
check_channel_direct_tcpip_request = open_succeeded

unfoldable pub check_channel_pty_request : Bool
check_channel_pty_request = true

-- How `start_server` of the transport ends: with an error of the protocol, which is a class of the
-- library, or another exception.
pub data Started : Type 0 where
  started ssh_error : Started
  failed : Exn → Started

abbrev is_dropped : Exn → Bool
is_dropped eof_error = true
is_dropped connection_reset = true
is_dropped _ = false

module _ (q : Server) (clock : List Text) where
  -- `accepted` says whether a channel was opened in time. Without one `accept` gives None, for which
  -- the `with` raises. The wait for the event at the end has no effect that is kept.
  unfoldable pub serve_channel : Peer → Bool → Handler (List Arrival) (Unit {0})
  unfolding handle_interactive_session
  serve_channel peer accepted =
      if accepted
      then (if has_option q "interactive" then handle_interactive_session q peer clock else skip)
      else raise type_error

  unfoldable pub serve_transport : Peer → Started → Bool → Handler (List Arrival) (Unit {0})
  unfolding serve_channel
  serve_transport peer started accepted = serve_channel peer accepted
  serve_transport peer ssh_error accepted = emit debugged
  serve_transport peer (failed e) accepted = if is_dropped e then emit debugged else raise e

  -- `getpeername` gives the address, or raises an `OSError`.
  unfoldable pub handle_connection :
      Result Peer → Started → Bool → Handler (List Arrival) (Unit {0})
  unfolding serve_transport
  handle_connection (raised e) s accepted = emit debugged
  handle_connection (ok peer) s accepted = do log_connection q peer; serve_transport peer s accepted
