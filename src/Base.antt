-- ===== src/Base.antt =====
-- base_server.py: the settings that all servers share, their log and the check of a login.
pub mod Login
pub mod Samples
pub mod Process
pub mod Port
pub mod Init
mod Tests
use honeypots.Prelude.{
  ℕ, Bool, true, false, ◌&&◌, Option, none, some, List, [], ◌∷◌, String, ltb, if◌then◌else◌,
}
use honeypots.Python.Bytes.{Text, codes, bytes_eq, find}
use honeypots.Python.Value.{Value, text, int, item, fields, update, word}
use honeypots.Session.{Handler, logged, emit, pure, ◌>>=◌, ◌>>◌}

-- The attributes of a `BaseServer` that the handlers read.
pub record Server : Type 0 where
  pub name : Text
  pub ip : Text
  pub port : ℕ
  pub username : Text
  pub password : Text
  pub options : Text

-- The address of the other side, `self.transport.getPeer()`.
pub record Peer : Type 0 where
  pub host : Text
  pub port : ℕ

-- the items that `log` adds to every entry
abbrev pub server_items : Server → List (Text × Value)
server_items q =
    item "server" (text q.name) ∷ item "dest_ip" (text q.ip) ∷ item "dest_port" (int q.port) ∷ []

unfoldable pub log : {S : Type 0} → Server → List (Text × Value) → Handler S (Unit {0})
unfolding update
log q log_data = emit (logged (update (fields log_data) (server_items q)))

unfoldable pub login_is_correct : Server → Text → Text → Bool
unfolding bytes_eq
login_is_correct q username password = bytes_eq username q.username && bytes_eq password q.password

abbrev pub status_of : Bool → Text
status_of b = if b then codes "success" else codes "failed"

abbrev pub login_items : Text → Text → Text → Text → ℕ → List (Text × Value)
login_items status username password ip port =
    word "action" "login"
    ∷ item "status" (text status)
    ∷ item "src_ip" (text ip)
    ∷ item "src_port" (int port)
    ∷ item "username" (text username)
    ∷ item "password" (text password)
    ∷ []

unfoldable pub check_login : {S : Type 0} → Server → Text → Text → Text → ℕ → Handler S Bool
unfolding log login_is_correct
check_login q username password ip port =
    let status = status_of (login_is_correct q username password) in
    do
      log q (login_items status username password ip port)
      pure (bytes_eq status (codes "success"))

-- `check_login` where the caller drops the result
abbrev pub check_login_ : {S : Type 0} → Server → Text → Text → Peer → Handler S (Unit {0})
check_login_ q username password peer = do
  _ ← check_login q username password peer.host peer.port
  pure tt

-- The entry that every `connectionMade` logs.
abbrev pub log_connection : {S : Type 0} → Server → Peer → Handler S (Unit {0})
log_connection q peer = log q (
    word "action" "connection"
    ∷ item "src_ip" (text peer.host)
    ∷ item "src_port" (int peer.port)
    ∷ [])

-- `word in self.options`
abbrev pub has_option : Server → String → Bool
has_option q option = elim (find (codes option) q.options) [ none ↦ false | some _ ↦ true ]
