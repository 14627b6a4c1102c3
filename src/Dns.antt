-- ===== src/Dns.antt =====
-- dns_server.py: what the server logs of a datagram and of the answer of the resolver.
use honeypots.Prelude.{Option, none, some, List, [], ◌∷◌}
use honeypots.Python.Bytes.{Bytes, codes}
use honeypots.Python.Utf8.{decode_replace}
use honeypots.Python.Value.{Value, text, int, item, word}
use honeypots.Session.{Handler, ◌>>◌, skip}
use honeypots.Base.{Server, Peer, log}

-- `src_ip` and `src_port`: the texts None without an address
abbrev source_ip : Option Peer → Value
source_ip none = text (codes "None")
source_ip (some a) = text a.host

abbrev source_port : Option Peer → Value
source_port none = text (codes "None")
source_port (some a) = int a.port

module _ {S : Type 0} (q : Server) where
  -- the inner loop; a record is given by its payload
  unfoldable pub log_items : Option Peer → List Value → Handler S (Unit {0})
  unfolding log
  log_items address [] = skip
  log_items address (payload ∷ rest) = do
    log q (
        word "action" "query"
        ∷ item "src_ip" (source_ip address)
        ∷ item "src_port" (source_port address)
        ∷ item "data" payload
        ∷ [])
    log_items address rest

  unfoldable pub log_response : Option Peer → List (List Value) → Handler S (Unit {0})
  unfolding log_items
  log_response address [] = skip
  log_response address (items ∷ rest) = do log_items address items; log_response address rest

  -- `super_got` is the method of the library, called behind the loop.
  unfoldable pub got_resolver_response :
      Handler S (Unit {0}) → List (List Value) → Option Peer → Handler S (Unit {0})
  unfolding log_response
  got_resolver_response super_got response address = do log_response address response; super_got

  -- `super_received` is the method of the library.
  unfoldable pub datagram_received :
      (Bytes → Peer → Handler S (Unit {0})) → Bytes → Peer → Handler S (Unit {0})
  unfolding log decode_replace
  datagram_received super_received data_ addr = do
    log q (
        word "action" "connection"
        ∷ item "src_ip" (text addr.host)
        ∷ item "src_port" (int addr.port)
        ∷ item "data" (text (decode_replace data_))
        ∷ [])
    super_received data_ addr
