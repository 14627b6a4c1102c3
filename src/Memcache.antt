-- ===== src/Memcache.antt =====
-- memcache_server.py: the commands of a connection, and the statistics of `stats`.
pub mod Stats
pub mod Commands
use honeypots.Prelude.{
  ℕ, Bool, true, false, not, ◌&&◌, Option, none, some, List, [], ◌∷◌, ◌++◌, String, length, ltb,
  if◌then◌else◌,
}
use honeypots.Python.Bytes.{Bytes, Text, codes, bytes_eq, split, str}
use honeypots.Python.Utf8.{decode, encode}
use honeypots.Python.Result.{Exn, Result, ok, raised, of_option, index, unicode_error}
use honeypots.Python.Value.{text, int, item}
use honeypots.Session.{Handler, ◌>>=◌, ◌>>◌, lift, write, lose_connection, skip, suppress}
use honeypots.Base.{Server, Peer, log, log_connection}
use honeypots.Memcache.Stats.{Draws, get_stats}

unfoldable pub connection_made : {S : Type 0} → Server → Peer → Handler S (Unit {0})
connection_made q peer = log_connection q peer

-- `get_key`, at the number that `randint` drew
unfoldable pub get_key : ℕ → Bytes → Bytes
get_key random key = elim (decode key) [
  | some k ↦ encode (
      codes "VALUE "
      ++ (k
          ++ (codes " 0 "
              ++ (str (length (str random))
                  ++ (codes "\r\n" ++ (str random ++ codes "\r\nEND\r\n"))))))
  | none ↦ []
]

abbrev is_word : Bytes → String → Bool
is_word b w = bytes_eq b (codes w)

-- the answer to the words of a line whose first word is `command`
unfoldable pub answer : {S : Type 0} → Draws → ℕ → Bytes → List Bytes → Handler S (Unit {0})
unfolding bytes_eq
answer draws random command words =
    if is_word command "stats"
    then write (get_stats draws)
    else if is_word command "get"
    then (do key ← lift (index words 1); write (get_key random key))
    else if is_word command "set" && ltb 4 (length words)
    then write (codes "STORED\r\n")
    else write (codes "ERROR\r\n")

abbrev log_command : {S : Type 0} → Server → Peer → Bytes → Handler S (Unit {0})
log_command q peer command = do
  action ← lift (of_option unicode_error (decode command))
  log q (
      item "action" (text action)
      ∷ item "src_ip" (text peer.host)
      ∷ item "src_port" (int peer.port)
      ∷ [])

-- The draws are those of `randint`, `uniform` and `time` in the call.
unfoldable pub data_received :
    {S : Type 0} → Server → Peer → Draws → ℕ → Bytes → Handler S (Unit {0})
data_received q peer draws random data_ = do
  suppress (do
    line ← lift (index (split (codes "\r\n") data_) 0)
    let words = split (codes " ") line
    command ← lift (index words 0)
    answer draws random command words
    if not (bytes_eq command []) then log_command q peer command else skip)
  lose_connection
