-- ===== src/Irc.antt =====
-- irc_server.py: the methods that override those of the library's user. The library's own handling of
-- a command and of data are parameters, and so are the texts of the values that are no bytes.
pub mod Nick
use honeypots.Prelude.{Bool, true, false, List, [], ◌∷◌, if◌then◌else◌}
use honeypots.Python.Bytes.{Bytes, Text, join}
use honeypots.Python.Value.{text, int, item, word, fields, dict}
use honeypots.Python.Result.{Exn, unicode_error}
use honeypots.Session.{Handler, ◌>>=◌, ◌>>◌, emit, debugged, skip, try_except}
use honeypots.Base.{Server, Peer, log, log_connection, has_option, check_login_}
use honeypots.Helper.{Argument, check_bytes}

pub record Library (S : Type 0) : Type 0 where
  pub handle_command : Argument → Argument → Argument → Handler S (Unit {0})
  pub data_received : Bytes → Handler S (Unit {0})

abbrev is_unicode_error : Exn → Bool
is_unicode_error unicode_error = true
is_unicode_error _ = false

module _ {S : Type 0} (l : Library S) (q : Server) (peer : Peer) where
  -- The method of the library is not called.
  unfoldable pub connection_made : Handler S (Unit {0})
  connection_made = log_connection q peer

  abbrev capture : Argument → Argument → Argument → Handler S (Unit {0})
  capture command prefix params =
      if has_option q "capture_commands"
      then log q (
          word "action" "command"
          ∷ item "data" (
              dict (
                fields (
                  item "command" (text (check_bytes command))
                  ∷ item "prefix" (text (check_bytes prefix))
                  ∷ item "params" (text (check_bytes params))
                  ∷ [])))
          ∷ item "src_ip" (text peer.host)
          ∷ item "src_port" (int peer.port)
          ∷ [])
      else skip

  unfoldable pub handle_command : Argument → Argument → Argument → Handler S (Unit {0})
  handle_command command prefix params = do
    capture command prefix params
    l.handle_command command prefix params

  unfoldable pub data_received : Bytes → Handler S (Unit {0})
  data_received data_ = try_except (l.data_received data_) is_unicode_error (λ _. emit debugged)

  unfoldable pub irc_unknown : Handler S (Unit {0})
  irc_unknown = skip

  -- `password` is the attribute that the library sets at PASS.
  unfoldable pub irc_nick : Argument → List Text → Handler S (Unit {0})
  irc_nick password params =
      check_login_ q (check_bytes (Argument.text (join [] params))) (check_bytes password) peer
