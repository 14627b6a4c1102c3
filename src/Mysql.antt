-- ===== src/Mysql.antt =====
-- mysql_server.py: the protocol object of one connection. SHA-1 is a library's, a parameter.
pub mod Packet
pub mod Scramble
pub mod Login
mod Tests
use honeypots.Prelude.{
  ℕ, Bool, true, false, ◌&&◌, Option, none, some, List, [], ◌∷◌, ◌++◌, map, ◌==◌, if◌then◌else◌,
}
use honeypots.Python.Bytes.{Bytes, Text, codes, bytes_eq, hex, join, hex_short}
use honeypots.Python.Value.{Value, item, word}
use honeypots.Session.{Handler, ◌>>=◌, ◌>>◌, gets, modify, write, lose_connection, try_except, feed}
use honeypots.Base.{Server, Peer, log, log_connection}
use honeypots.Helper.{Argument, none_, object, check_bytes}
use honeypots.Mysql.Packet.{greeting, too_many, access_denied, Parsed, parse_data}
use honeypots.Mysql.Scramble.{Word, decode, argument}

-- `_state`
abbrev pub State : Type 0
State = Option ℕ

abbrev in_state : ℕ → State → Bool
in_state n none = false
in_state n (some m) = m == n

abbrev set_state : State → Handler State (Unit {0})
set_state s = modify (λ _. s)

unfoldable pub connection_made : Server → Peer → Handler State (Unit {0})
unfolding log
connection_made q peer = do set_state (some 1); write greeting; log_connection q peer

-- What is logged of a login packet, and whether the answer is the refusal.
pub record Verdict : Type 0 where
  pub status : Text
  pub password : Value
  pub ret_access_denied : Bool

-- the value that is logged for a password as it was read
abbrev raw_value : Argument → Value
raw_value (Argument.bytes b) = Value.bytes b
raw_value (Argument.text t) = Value.text t
raw_value none_ = Value.null
raw_value (Argument.int n) = Value.int n
raw_value (object s) = Value.text s

abbrev payload_of : Argument → Bytes
payload_of (Argument.bytes b) = b
payload_of _ = []

-- the branch for a password that is not empty, with the word behind it
unfoldable pub judge_word : Server → Text → Bytes → Option Word → Verdict
judge_word q username password none = record {
  status = codes "failed";
  password = Value.text (hex password);
  ret_access_denied = true;
}
judge_word q username password (some word) =
    if bytes_eq username q.username
    then record {
      status = codes "success";
      password = Value.text (check_bytes (argument word));
      ret_access_denied = false;
    }
    else record {
      status = codes "failed";
      password = Value.text (hex password);
      ret_access_denied = true;
    }

abbrev refused_data : Bytes → Verdict
refused_data data_ = record {
  status = codes "failed";
  password = Value.text (join (codes ":") (map hex_short data_));
  ret_access_denied = true;
}

module _ (sha1 : Bytes → Bytes) (words : List Word) (q : Server) (peer : Peer) where
  unfoldable pub judge : Bytes → Parsed → Verdict
  unfolding judge_word
  judge data_ p =
      if p.good
      then elim (payload_of p.password) [
        | [] ↦ refused_data data_
        | b ∷ bs ↦ judge_word q (check_bytes p.username) (b ∷ bs) (decode sha1 words (b ∷ bs))
      ]
      else record {
        status = codes "failed";
        password = raw_value p.password;
        ret_access_denied = false;
      }

  unfoldable pub answer : Bytes → Handler State (Unit {0})
  unfolding log
  answer data_ = do
    let p = parse_data data_
    let v = judge data_ p
    log q (
        word "action" "login"
        ∷ item "status" (Value.text v.status)
        ∷ item "src_ip" (Value.text peer.host)
        ∷ item "src_port" (Value.int peer.port)
        ∷ item "username" (Value.text (check_bytes p.username))
        ∷ item "password" v.password
        ∷ [])
    if v.ret_access_denied then write access_denied else write too_many

  unfoldable pub data_received : Bytes → Handler State (Unit {0})
  unfolding answer
  data_received data_ =
      try_except
        (do state ← gets (λ s. s); if in_state 1 state then answer data_ else lose_connection)
        (λ _. true) (λ _. do write too_many; lose_connection)

  -- A connection: it is made, and the chunks arrive.
  unfoldable pub session : List Bytes → Handler State (Unit {0})
  session chunks = do connection_made q peer; feed data_received chunks

unfoldable pub connection_lost : Handler State (Unit {0})
connection_lost = set_state none
