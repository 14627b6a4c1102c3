-- ===== src/Smb.antt =====
-- smb_server.py: what becomes of the lines that the library logs. The thread of a connection is named
-- by its address.
use honeypots.Prelude.{
  ℕ, ◌-◌, Bool, true, false, not, ◌||◌, Option, none, some, List, [], ◌∷◌, ◌++◌, length, ltb,
  if◌then◌else◌,
}
use honeypots.Python.Bytes.{Text, codes, find, split, starts_with, strip, str}
use honeypots.Python.Value.{text, dict, fields, item, word}
use honeypots.Session.{Handler, skip}
use honeypots.Base.{Server, log}

-- `f"thread_{ip}_{port}_{number}"` of the constructor of a connection
unfoldable pub connection_id : Text → ℕ → ℕ → Text
unfolding str
connection_id ip port number =
    codes "thread" ++ (codes "_" ++ (ip ++ (codes "_" ++ (str port ++ (codes "_" ++ str number)))))

-- `word in message`
abbrev pub mentions : Text → Text → Bool
mentions w message = elim (find w message) [ none ↦ false | some i ↦ true ]

-- `_, ip, port, *_ = temp.split("_")`
abbrev address_of : List Text → Option (Text × Text)
address_of (t ∷ ip ∷ port ∷ rest) = some (ip, port)
address_of _ = none

-- The address in the name of a thread, where it is that of a connection.
unfoldable pub thread_address : Text → Option (Text × Text)
unfolding starts_with
thread_address temp =
    if not (starts_with (codes "thread_") temp) || ltb (length (split (codes "_") temp) - 1) 2
    then none
    else address_of (split (codes "_") temp)

unfoldable pub is_connection : Text → Bool
is_connection message =
    mentions (codes "Incoming connection") message
    || (mentions (codes "AUTHENTICATE_MESSAGE") message
        || mentions (codes "authenticated successfully") message)

module _ {S : Type 0} (q : Server) where
  -- `username, _, _, _, nt_res_1, nt_res_2 = message.split(":")`, or a `ValueError` that is suppressed
  unfoldable pub log_login : Text → Text → List Text → Handler S (Unit {0})
  unfolding log
  log_login ip port (username ∷ a ∷ b ∷ c ∷ nt_res_1 ∷ nt_res_2 ∷ []) = log q (
      word "action" "login"
      ∷ item "username" (text username)
      ∷ item "src_ip" (text ip)
      ∷ item "src_port" (text port)
      ∷ item "data"
          (dict (fields (item "nt_data_1" (text nt_res_1) ∷ item "nt_data_2" (text nt_res_2) ∷ [])))
      ∷ [])
  log_login ip port _ = skip

  unfoldable pub log_connection : Text → Text → Text → Handler S (Unit {0})
  unfolding log
  log_connection ip port message = log q (
      word "action" "connection"
      ∷ item "data" (text message)
      ∷ item "src_ip" (text ip)
      ∷ item "src_port" (text port)
      ∷ [])

  unfoldable pub log_message : Text → Text → Text → Handler S (Unit {0})
  unfolding log_connection
  log_message ip port message =
      if is_connection message
      then log_connection ip port message
      else if mentions (codes ":aaaaaaaaaaaaaaaa:") message
      then log_login ip port (split (codes ":") message)
      else skip

  -- `log` of the server, in the thread of that name
  unfoldable pub log_line : Text → Text → Handler S (Unit {0})
  log_line temp msg = elim (thread_address temp) [
    | none ↦ skip
    | some address ↦ log_message address.0 address.1 (strip msg)
  ]
