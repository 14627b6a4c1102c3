-- ===== src/Memcache/Commands.antt =====
-- What memcache_server.py answers to a `get`, and the lines of its statistics.
use honeypots.Prelude.{ℕ, ◌≡◌, refl, ap, ◌∙◌, arith, String, [], ◌∷◌, ◌++◌, length, All}
use honeypots.Python.Bytes.{Bytes, Text, codes, bytes_eq, split, str}
use honeypots.Python.Utf8.{decode, encode}
use honeypots.Python.Utf8.RoundTrip.{IsScalar, decode-encode}
use honeypots.Python.Split.{Lacks, split-append, split_last}
use honeypots.Python.Result.{ok}
use honeypots.Python.Value.{Fields, text, int, item, word, fields, update}
use honeypots.Session.{logged, sent, closed}
use honeypots.Base.{Server, Peer, log, server_items}
use honeypots.Memcache.Stats.{Draws}
use honeypots.Memcache.{get_key, answer, data_received}

-- What a client sends to read a key.
abbrev pub get_request : Text → Bytes
get_request key = (codes "get " ++ encode key) ++ codes "\r\n"

-- The item with its length in characters.
abbrev pub value_text : Text → Text → Text
value_text key value =
    codes "VALUE "
    ++ (key
        ++ (codes " 0 "
            ++ (str (length value) ++ (codes "\r\n" ++ (value ++ codes "\r\nEND\r\n")))))

abbrev pub command_entry : Server → Peer → String → Fields
command_entry q peer action =
    update
      (fields (
        word "action" action
        ∷ item "src_ip" (text peer.host)
        ∷ item "src_port" (int peer.port)
        ∷ []))
      (server_items q)

get_words :
    (key : Bytes) → Lacks 32 key → split (codes " ") (codes "get " ++ key) ≡ codes "get" ∷ key ∷ []
get_words key h =
    split-append 32 [] (codes "get") key (omega arith)
    ∙ ap (◌∷◌ (codes "get")) (split_last 32 [] key h)

get_line :
    (key : Bytes)
    → Lacks 13 key
    → split (codes "\r\n") ((codes "get " ++ key) ++ codes "\r\n") ≡ (codes "get " ++ key) ∷ [] ∷ []
get_line key h =
    split-append 13 (10 ∷ []) (codes "get " ++ key) []
      (omega arith, (omega arith, (omega arith, (omega arith, h))))
    ∙ ap (◌∷◌ (codes "get " ++ key)) (split_last 13 (10 ∷ []) [] tt)

get_key-encode :
    (random : ℕ) (key : Text)
    → All IsScalar key
    → get_key random (encode key) ≡ encode (value_text key (str random))
unfolding get_key
get_key-encode random key h = rw (decode-encode key h, get_key) refl

-- A client that asks for a key is sent one item of that key, whose value is the drawn number and
-- whose announced length is that of the value; the command is logged, and the connection closed.
-- The key is any text whose UTF-8 form has no space and no carriage return.
pub data_received-get :
    {S : Type 0} (q : Server) (peer : Peer) (draws : Draws) (random : ℕ) (key : Text) (s : S)
    → All IsScalar key
    → Lacks 32 (encode key)
    → Lacks 13 (encode key)
    → data_received q peer draws random (get_request key) s ≡ (
      ok tt,
      s,
      sent (encode (value_text key (str random)))
          ∷ logged (command_entry q peer "get")
          ∷ closed
          ∷ [],
    )
unfolding data_received answer bytes_eq log decode
data_received-get q peer draws random key s scalar no_space no_return =
    rw
      (
        get_line (encode key) no_return,
        get_words (encode key) no_space,
        get_key-encode random key scalar,
      )
      refl
