-- ===== src/Smtp.antt =====
-- smtp_server.py: the methods that override those of the library's server. The library is in the
-- parameters: what `sendCode` writes, its own handling of a line, `b64decode`, and how a format string
-- shows the argument of EHLO.
pub mod Plain
use honeypots.Prelude.{
  ℕ, ◌||◌, Bool, true, false, Option, none, some, List, [], ◌∷◌, ◌++◌, if◌then◌else◌,
}
use honeypots.Python.Bytes.{Bytes, Text, codes, bytes_eq, split, starts_with, strip, upper}
use honeypots.Python.Utf8.{decode_replace, encode}
use honeypots.Python.Value.{Value, null, text, bytes, int, item, word, fields, dict}
use honeypots.Python.Result.{Result, ok, raised, index, value_error}
use honeypots.Base.{Server, Peer, log, log_connection, check_login_}
use honeypots.Session.{Handler, ◌>>=◌, ◌>>◌, lift, skip, write}

pub record Library (S : Type 0) : Type 0 where
  pub send_code : ℕ → Bytes → Bytes
  pub connection_made : Handler S (Unit {0})
  pub state_command : Bytes → Handler S (Unit {0})
  pub b64decode : Bytes → Result Bytes
  pub shown : Bytes → Text

-- the part behind an index, or `None`
abbrev part : List Bytes → Value
part [] = null
part (p ∷ ps) = bytes p

abbrev behind : List Bytes → List Bytes
behind [] = []
behind (p ∷ ps) = ps

-- `_, username, password = parts`
abbrev pub credentials_of : List Text → Result (Text × Text)
credentials_of (identity ∷ username ∷ password ∷ []) = ok (username, password)
credentials_of _ = raised value_error

module _ {S : Type 0} (l : Library S) (q : Server) (peer : Peer) where
  unfoldable pub connection_made : Handler S (Unit {0})
  connection_made = do log_connection q peer; l.connection_made

  abbrev log_command : Bytes → List Bytes → Handler S (Unit {0})
  log_command command rest = log q (
      word "action" "connection"
      ∷ item "src_ip" (text peer.host)
      ∷ item "src_port" (int peer.port)
      ∷ item "data" (
          dict (
            fields (
              item "command" (bytes command)
              ∷ item "arg" (part rest)
              ∷ item "data" (part (behind rest))
              ∷ [])))
      ∷ [])

  abbrev is_greeting : Bytes → Bool
  is_greeting command = bytes_eq command (codes "HELO") || bytes_eq command (codes "EHLO")

  unfoldable pub state_command : Bytes → Handler S (Unit {0})
  unfolding split upper bytes_eq
  state_command line = do
    command ← lift (index (split (codes " ") line) 0)
    if is_greeting (upper command)
        then skip
        else log_command command (behind (split (codes " ") line))
    l.state_command line

  unfoldable pub do_ehlo : Bytes → Handler S (Unit {0})
  do_ehlo arg = write (
      l.send_code 250 (
        encode (
          codes "ip-127-0-0-1.ec2.internal Hello "
          ++ (l.shown arg ++ codes "\n8BITMIME\nAUTH LOGIN PLAIN\nSTARTTLS"))))

  unfoldable pub plain_login : Bytes → Handler S (Unit {0})
  plain_login arg = do
    encoded ← lift (index (split (codes " ") arg) 1)
    decoded ← lift (l.b64decode (strip encoded))
    login ← lift (credentials_of (split (0 ∷ []) (decode_replace decoded)))
    check_login_ q login.0 login.1 peer

  unfoldable pub ext_auth : Bytes → Handler S (Unit {0})
  unfolding starts_with plain_login
  ext_auth arg = do
    if starts_with (codes "PLAIN ") arg then plain_login arg else skip
    write (l.send_code 235 (codes "Authentication successful."))
