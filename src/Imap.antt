-- ===== src/Imap.antt =====
-- imap_server.py: the methods that override those of the library's server. The library is in the
-- parameters: what its responses write, what a dispatched command does, and what it does with a line.
pub mod Command
use honeypots.Prelude.{
  Bool, true, false, ◌||◌, Option, none, some, List, [], ◌∷◌, ◌++◌, if◌then◌else◌,
}
use honeypots.Python.Bytes.{Bytes, Text, codes, lower, split, split_words, starts_with, upper}
use honeypots.Python.Value.{text, int, item, word, fields, dict}
use honeypots.Python.Result.{Exn, index, index_error, unauthorized}
use honeypots.Session.{Handler, ◌>>=◌, ◌>>◌, lift, raise, skip, try_except, write}
use honeypots.Base.{Server, Peer, log, log_connection, has_option, check_login_}
use honeypots.Helper.{Argument, bytes, none_, check_bytes}

-- How a dispatched command ends: in order, or with one of the exceptions that are caught, and its text.
pub data Dispatched : Type 0 where
  done : Dispatched
  illegal_client_response illegal_operation illegal_mailbox_encoding : Text → Dispatched

-- the class of the library, on the state that it keeps
pub record Library (S : Type 0) : Type 0 where
  pub positive_response : Bytes → Bytes
  pub bad_response : Option Bytes → Text → Bytes
  pub negative_response : Bytes → Text → Bytes
  pub dispatch_command : Bytes → Bytes → Option Bytes → Handler S Dispatched
  pub line_received : Bytes → Handler S (Unit {0})

abbrev argument : Option Bytes → Argument
argument none = none_
argument (some b) = bytes b

abbrev is_index_error : Exn → Bool
is_index_error index_error = true
is_index_error _ = false

module _ {S : Type 0} (l : Library S) (q : Server) (peer : Peer) where
  unfoldable pub connection_made : Bytes → Handler S (Unit {0})
  connection_made mocking_server = do
    log_connection q peer
    write (l.positive_response mocking_server)

  abbrev answer_dispatched : Bytes → Dispatched → Handler S (Unit {0})
  answer_dispatched tag done = skip
  answer_dispatched tag (illegal_client_response e) =
      write (l.bad_response (some tag) (codes "Illegal syntax: " ++ e))
  answer_dispatched tag (illegal_operation e) =
      write (l.negative_response tag (codes "Illegal operation: " ++ e))
  answer_dispatched tag (illegal_mailbox_encoding e) =
      write (l.negative_response tag (codes "Illegal mailbox name: " ++ e))

  abbrev capture : Bytes → Bytes → Option Bytes → Handler S (Unit {0})
  capture tag cmd rest =
      if has_option q "capture_commands"
      then log q (
          word "action" "command"
          ∷ item "data" (
              dict (
                fields (
                  item "cmd" (text (check_bytes (bytes cmd)))
                  ∷ item "tag" (text (check_bytes (bytes tag)))
                  ∷ item "data" (text (check_bytes (argument rest)))
                  ∷ [])))
          ∷ item "src_ip" (text peer.host)
          ∷ item "src_port" (int peer.port)
          ∷ [])
      else skip

  unfoldable pub run_command : Bytes → Bytes → Option Bytes → Handler S (Unit {0})
  run_command tag command rest = do
    capture tag (upper command) rest
    ended ← l.dispatch_command tag (upper command) rest
    answer_dispatched tag ended

  -- the command of the words of a line
  unfoldable pub parse_words : List Bytes → Handler S (Unit {0})
  unfolding run_command
  parse_words [] = write (l.bad_response none (codes "Null command"))
  parse_words (tag ∷ []) = write (l.bad_response (some tag) (codes "Missing command"))
  parse_words (tag ∷ command ∷ []) = run_command tag command none
  parse_words (tag ∷ command ∷ rest ∷ _) = run_command tag command (some rest)

  unfoldable pub parse_command : Bytes → Handler S (Unit {0})
  unfolding parse_words split_words
  parse_command line = parse_words (split_words 2 line)

  unfoldable pub authenticate_login : Bytes → Bytes → Handler S (Unit {0})
  unfolding check_bytes
  authenticate_login user passwd = do
    check_login_ q (check_bytes (bytes user)) (check_bytes (bytes passwd)) peer
    raise unauthorized

  -- Only lines with one of two commands reach the library.
  unfoldable pub line_received : Bytes → Handler S (Unit {0})
  unfolding split lower starts_with
  line_received line =
      try_except
        (do
          second ← lift (index (split (codes " ") line) 1)
          if starts_with (codes "login") (lower second)
                || starts_with (codes "capability") (lower second)
              then l.line_received line
              else skip)
        is_index_error (λ _. skip)
