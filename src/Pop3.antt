-- ===== src/Pop3.antt =====
-- pop3_server.py: the protocol object of one connection. The class of the library that it extends
-- is in the parameters: what `successResponse` and `failResponse` write for a message, the test for
-- the commands that need no login, and the handlers of the commands that are not overridden.
pub mod Login
use honeypots.Prelude.{
  ℕ, ◌-◌, Bool, true, false, not, ◌||◌, ◌&&◌, Option, none, some, List, [], ◌∷◌, ◌++◌, leb,
  if◌then◌else◌,
}
use honeypots.Python.Bytes.{Bytes, Text, codes, bytes_eq, join, lower, starts_with, upper}
use honeypots.Python.Value.{text, int, item, word, fields, dict}
use honeypots.Python.Result.{Exn, pop3_error, type_error}
use honeypots.Session.{Handler, ◌>>=◌, ◌>>◌, gets, modify, raise, write, skip}
use honeypots.Base.{Server, Peer, log, log_connection, has_option, check_login_}
use honeypots.Helper.{bytes, check_bytes}

-- `_user`, and what the library keeps: the commands that wait, and whether there is a mailbox.
pub record State : Type 0 where
  pub user : Option Bytes
  pub blocked : Option (List (Bytes × List Bytes))
  pub mbox : Bool

-- the class of the library
pub record Library : Type 0 where
  pub success_response : Text → Bytes
  pub fail_response : Text → Bytes
  pub is_auth_command : Bytes → Bool
  pub inherited : Bytes → Option (List Bytes → Handler State (Unit {0}))

module _ (l : Library) (q : Server) (peer : Peer) where
  unfoldable pub connection_made : Text → Handler State (Unit {0})
  unfolding log
  connection_made mocking_server = do
    log_connection q peer
    modify (λ s. record s { user = none })
    write (l.success_response mocking_server)

  unfoldable pub do_user : List Bytes → Handler State (Unit {0})
  do_user (user ∷ []) = do
    modify (λ s. record s { user = some user })
    write (l.success_response (codes "USER Ok"))
  do_user _ = raise type_error

  abbrev pub is_set : Option Bytes → Bool
  is_set none = false
  is_set (some []) = false
  is_set (some _) = true

  abbrev pub user_text : Option Bytes → Text
  user_text none = []
  user_text (some user) = check_bytes (bytes user)

  unfoldable pub do_pass : List Bytes → Handler State (Unit {0})
  unfolding check_bytes join
  do_pass [] = raise type_error
  do_pass (password ∷ words) = do
    s ← gets (λ s. s)
    if is_set s.user
        then (do
          check_login_ q (user_text s.user)
              (check_bytes (bytes (join (codes " ") (password ∷ words)))) peer
          write (l.fail_response (codes "Authentication failed")))
        else write (l.fail_response (codes "USER first, then PASS"))
    modify (λ s. record s { user = none })

  -- `getattr(self, "do_" + command)` and the call
  unfoldable pub dispatch : Bytes → List Bytes → Handler State (Unit {0})
  unfolding bytes_eq
  dispatch command args =
      if bytes_eq command (codes "USER")
      then do_user args
      else if bytes_eq command (codes "PASS")
      then do_pass args
      else elim (l.inherited command) [ none ↦ raise pop3_error | some f ↦ f args ]

  abbrev capture : Bytes → List Bytes → Handler State (Unit {0})
  capture command args =
      if has_option q "capture_commands"
      then log q (
          word "action" "command"
          ∷ item "data" (
              dict (
                fields (
                  item "cmd" (text (check_bytes (bytes command)))
                  ∷ item "args" (text (check_bytes (bytes (join (codes " ") args))))
                  ∷ [])))
          ∷ item "src_ip" (text peer.host)
          ∷ item "src_port" (int peer.port)
          ∷ [])
      else skip

  -- whether a command may begin a login
  abbrev pub is_login_command : Bytes → Bool
  is_login_command command =
      starts_with (codes "user") (lower command) || starts_with (codes "pass") (lower command)

  abbrev append_blocked : List (Bytes × List Bytes) → Bytes → List Bytes → State → State
  append_blocked waiting command args s = record s {
    blocked = some (waiting ++ (command, args) ∷ []);
  }

  abbrev run_command : State → Bytes → List Bytes → Handler State (Unit {0})
  run_command s command args = elim s.blocked [
    | some waiting ↦ modify (append_blocked waiting command args)
    | none ↦
        if not s.mbox && not (l.is_auth_command (upper command))
        then raise pop3_error
        else dispatch (upper command) args
  ]

  unfoldable pub process_command : Bytes → List Bytes → Handler State (Unit {0})
  unfolding lower starts_with
  process_command command args = do
    capture command args
    s ← gets (λ s. s)
    if is_login_command command
        then run_command s command args
        else write (l.fail_response (codes "Authentication failed"))
