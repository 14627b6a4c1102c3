-- ===== src/Sip.antt =====
-- sip_server.py: the handler of a request, which the library parsed.
use honeypots.Prelude.{ℕ, List, [], ◌∷◌}
use honeypots.Python.Bytes.{Text, codes, join}
use honeypots.Python.Dict.{Dict}
use honeypots.Python.Value.{Fields, text, int, dict, item, word, end, put}
use honeypots.Session.{Handler, ◌>>◌}
use honeypots.Base.{Server, Peer, log, log_connection}

-- The names and the values are texts, which `check_bytes` keeps.
unfoldable pub headers_onto : Fields → Dict (List Text) → Fields
unfolding put join
headers_onto d [] = d
headers_onto d ((name, values) ∷ headers) =
    headers_onto (put d name (text (join (codes ",") values))) headers

-- `deliver` is what the library does with the answer of the code.
module _ {S : Type 0} (q : Server) (deliver : ℕ → Handler S (Unit {0})) where
  unfoldable pub handle_request : Peer → Dict (List Text) → Handler S (Unit {0})
  unfolding log headers_onto
  handle_request addr headers = do
    log_connection q addr
    log q (
        word "action" "request"
        ∷ item "src_ip" (text addr.host)
        ∷ item "src_port" (int addr.port)
        ∷ item "data" (dict (headers_onto end headers))
        ∷ [])
    deliver 200
