-- ===== src/Ftp.antt =====
-- ftp_server.py: the check of credentials, the realm, and the protocol object. What belongs to the
-- library is in the parameters: its replies, its portal, its settings, and its own handling of a command.
pub mod Login
mod Tests
use honeypots.Prelude.{Bool, true, false, ◌&&◌, Option, none, some, List, [], ◌∷◌, if◌then◌else◌}
use honeypots.Python.Bytes.{Bytes, Text, codes, bytes_eq}
use honeypots.Python.Value.{text, int, item, word, fields, dict}
use honeypots.Python.Result.{
  Result, ok, raised, attribute_error, authorization_error, not_implemented,
}
use honeypots.Session.{Handler, ◌>>=◌, ◌>>◌, gets, modify, pure, raise, skip, write}
use honeypots.Base.{Server, Peer, log, log_connection, has_option, login_is_correct, check_login_}
use honeypots.Helper.{Argument, check_bytes}

pub data Credentials : Type 0 where
  anonymous : Credentials
  username_password : Text → Text → Credentials

pub data Phase : Type 0 where
  unauth authed : Phase

-- `_user`, until it is deleted, and `state`
pub record State : Type 0 where
  pub user : Option Text
  pub phase : Phase

-- The portal is given a check of credentials and some credentials. `upper` is that of a text.
pub record Library : Type 0 where
  pub reply : Text → Text → Bytes
  pub welcome_message : Text
  pub allow_anonymous : Bool
  pub user_anonymous : Text
  pub portal_login : (Credentials → Bool) → Credentials → Bool
  pub upper : Text → Text
  pub process_command : Text → List Text → Handler State (Unit {0})

-- `requestAvatarId`: anonymous credentials have no name, and the exception is suppressed.
unfoldable pub request_avatar_id : Server → Credentials → Bool
unfolding login_is_correct check_bytes
request_avatar_id q anonymous = false
request_avatar_id q (username_password username password) =
    login_is_correct q (check_bytes (Argument.text username)) (check_bytes (Argument.text password))

pub data Interface : Type 0 where
  ftp_shell other : Interface

-- `requestAvatar`
unfoldable pub request_avatar : List Interface → Result Interface
request_avatar [] = raised not_implemented
request_avatar (ftp_shell ∷ interfaces) = ok ftp_shell
request_avatar (other ∷ interfaces) = request_avatar interfaces

module _ (l : Library) (q : Server) (peer : Peer) where
  unfoldable pub connection_made : Handler State (Unit {0})
  connection_made = do
    log_connection q peer
    modify (λ s. record s { phase = unauth })
    write (l.reply (codes "220.2") l.welcome_message)

  -- `args` is the text of the tuple of the parameters.
  abbrev capture : Text → Text → Handler State (Unit {0})
  capture cmd args =
      if has_option q "capture_commands"
      then log q (
          word "action" "command"
          ∷ item "data" (
              dict (
                fields (
                  item "cmd" (text (check_bytes (Argument.text (l.upper cmd))))
                  ∷ item "args" (text (check_bytes (Argument.object args)))
                  ∷ [])))
          ∷ item "src_ip" (text peer.host)
          ∷ item "src_port" (int peer.port)
          ∷ [])
      else skip

  unfoldable pub process_command : Text → List Text → Text → Handler State (Unit {0})
  unfolding check_bytes
  process_command cmd params args = do capture cmd args; l.process_command cmd params

  abbrev is_guest : Text → Bool
  is_guest user = l.allow_anonymous && bytes_eq user l.user_anonymous

  abbrev credentials_of : Text → Text → Credentials
  credentials_of user password =
      if is_guest user then anonymous else username_password user password

  abbrev reply_code : Text → Text
  reply_code user =
      if is_guest user then codes "GUEST_LOGGED_IN_PROCEED" else codes "USR_LOGGED_IN_PROCEED"

  -- the callbacks of the login
  abbrev finish : Text → Bool → Handler State Text
  finish user true = do modify (λ s. record s { phase = authed }); pure (reply_code user)
  finish user false = do modify (λ s. record s { phase = unauth }); raise authorization_error

  abbrev login_as : Text → Text → Handler State Text
  login_as user password = do
    check_login_ q (check_bytes (Argument.text user)) (check_bytes (Argument.text password)) peer
    modify (λ s. record s { user = none })
    finish user (
        l.portal_login (request_avatar_id q)
          (credentials_of user (check_bytes (Argument.text password))))

  -- `ftp_PASS`, with the name of the reply
  unfoldable pub ftp_pass : Text → Handler State Text
  unfolding check_bytes bytes_eq
  ftp_pass password = do
    s ← gets (λ s. s)
    elim s.user [ none ↦ raise attribute_error | some user ↦ login_as user password ]
