-- ===== src/Ssh.antt =====
-- ssh_server.py: the handlers of `SSHHandle`, and the interactive session. The transport is a
-- library's; the state of the session is what its channel still gives.
pub mod Keys
pub mod Shell
pub mod Keystrokes
pub mod Typing
pub mod Connection
mod Tests
use honeypots.Prelude.{
  ℕ, Bool, true, false, String, Option, none, some, List, [], ◌∷◌, ◌++◌, if◌then◌else◌,
}
use honeypots.Python.Bytes.{Bytes, Text, codes, bytes_eq, hex}
use honeypots.Python.Value.{text, int, item, word, fields, dict}
use honeypots.Python.Result.{Exn, Result, ok, raised, eof_error, timeout_error}
use honeypots.Session.{Handler, Outcome, prepend, ◌>>=◌, ◌>>◌, pure, raise, write, skip}
use honeypots.Base.{Server, Peer, log, has_option, check_login}
use honeypots.Helper.{Argument, check_bytes}
use honeypots.Ssh.Keys.{Arrival, receive_line}
use honeypots.Ssh.Shell.{respond}

pub data Reply : Type 0 where
  open_succeeded administratively_prohibited auth_successful auth_failed : Reply

unfoldable pub check_channel_request : Text → Reply
unfolding bytes_eq
check_channel_request kind =
    if bytes_eq kind (codes "session") then open_succeeded else administratively_prohibited

unfoldable pub check_auth_password :
    {S : Type 0} → Server → Peer → Argument → Argument → Handler S Reply
unfolding check_bytes
check_auth_password q peer username password = do
  correct ← check_login q (check_bytes username) (check_bytes password) peer.host peer.port
  pure (if correct then auth_successful else auth_failed)

-- The handler sets an event that the connection waits for, and accepts.
unfoldable pub check_channel_exec_request : {S : Type 0} → Server → Peer → Argument → Handler S Bool
unfolding log check_bytes
check_channel_exec_request q peer command = do
  if has_option q "capture_commands"
      then log q (
          word "action" "command"
          ∷ item "src_ip" (text peer.host)
          ∷ item "src_port" (int peer.port)
          ∷ item "data" (dict (fields (item "command" (text (check_bytes command)) ∷ [])))
          ∷ [])
      else skip
  pure true

-- `fingerprint` is what the key of the library gives.
unfoldable pub check_auth_publickey :
    {S : Type 0} → Server → Peer → Argument → Bytes → Handler S Reply
unfolding log check_bytes hex
check_auth_publickey q peer username fingerprint = do
  log q (
      word "action" "login"
      ∷ item "src_ip" (text peer.host)
      ∷ item "src_port" (int peer.port)
      ∷ item "username" (text (check_bytes username))
      ∷ item "key_fingerprint" (text (check_bytes (Argument.bytes (hex fingerprint))))
      ∷ [])
  pure auth_successful

abbrev ends_session : Exn → Bool
ends_session timeout_error = true
ends_session eof_error = true
ends_session _ = false

abbrev pub log_line : Server → Peer → Text → Handler (List Arrival) (Unit {0})
log_line q peer line = log q (
    word "action" "interactive"
    ∷ item "src_ip" (text peer.host)
    ∷ item "src_port" (int peer.port)
    ∷ item "data" (dict (fields (item "command" (text line) ∷ [])))
    ∷ [])

-- The end of the loop, or what the next line asks for.
abbrev pub after_line :
    Server
    → Peer
    → Text
    → Handler (List Arrival) (Unit {0})
    → Result Text
    → Handler (List Arrival) (Unit {0})
after_line q peer now rest (raised e) = if ends_session e then skip else raise e
after_line q peer now rest (ok line) = do
  log_line q peer line
  if bytes_eq line (codes "exit") then skip else (do respond now line; rest)

abbrev pub run_turn :
    Outcome (List Arrival) Text
    → (Result Text → Handler (List Arrival) (Unit {0}))
    → Outcome (List Arrival) (Unit {0})
run_turn (r, s, o) next = prepend o (next r s)

-- The turns of the loop, each with the time of its answer, until the time is up.
unfoldable pub turns : Server → Peer → List Text → Handler (List Arrival) (Unit {0})
unfolding receive_line respond log bytes_eq
turns q peer [] = skip
turns q peer (now ∷ clock) =
    let rest = turns q peer clock in
    λ s. run_turn ((do write (codes "$ "); receive_line) s) (after_line q peer now rest)

abbrev pub welcome : Bytes
welcome = codes "Welcome to Ubuntu 20.04 LTS (GNU/Linux 5.4.0-26-generic x86_64)\r\n\r\n"

unfoldable pub handle_interactive_session :
    Server → Peer → List Text → Handler (List Arrival) (Unit {0})
unfolding turns
handle_interactive_session q peer clock = do write welcome; turns q peer clock
