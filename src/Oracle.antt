-- ===== src/Oracle.antt =====
-- oracle_server.py: the parser of a connect descriptor, and the protocol object.
pub mod Descriptor
pub mod Connect
mod Tests
use honeypots.Prelude.{
  ℕ, Bool, true, false, not, ◌||◌, Option, none, some, List, [], ◌∷◌, if◌then◌else◌,
}
use honeypots.Python.Bytes.{Bytes, Text, bytes_eq}
use honeypots.Python.Value.{Value, null, text, int, item, word, fields, dict}
use honeypots.Session.{Handler, ◌>>=◌, ◌>>◌, write, lose_connection, skip}
use honeypots.Base.{Server, Peer, log, log_connection}
use honeypots.Oracle.Descriptor.{Names, parse_payload}

unfoldable pub connection_made : {S : Type 0} → Server → Peer → Handler S (Unit {0})
connection_made q peer = log_connection q peer

unfoldable pub refuse_payload : Bytes
refuse_payload = 0x00 ∷ 0x08 ∷ 0x00 ∷ 0x00 ∷ 0x04 ∷ 0x00 ∷ 0x00 ∷ 0x00 ∷ []

-- a name that is neither `None` nor empty
abbrev pub is_given : Option Text → Bool
is_given none = false
is_given (some []) = false
is_given (some _) = true

abbrev pub name_value : Option Text → Value
name_value none = null
name_value (some t) = text t

unfoldable pub log_names : {S : Type 0} → Server → Peer → Names → Handler S (Unit {0})
unfolding log
log_names q peer n =
    if is_given n.service_name || is_given n.program || is_given n.local_user
    then log q (
        word "action" "login"
        ∷ item "src_ip" (text peer.host)
        ∷ item "src_port" (int peer.port)
        ∷ item "data" (
            dict (
              fields (
                item "local_user" (name_value n.local_user)
                ∷ item "program" (name_value n.program)
                ∷ item "service_name" (name_value n.service_name)
                ∷ [])))
        ∷ [])
    else skip

unfoldable pub data_received : {S : Type 0} → Server → Peer → Bytes → Handler S (Unit {0})
unfolding log_names parse_payload
data_received q peer data_ = do
  log_names q peer (parse_payload data_)
  write refuse_payload
  lose_connection
