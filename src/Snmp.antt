-- ===== src/Snmp.antt =====
-- snmp_server.py: the handler of a datagram; the library parses it.
use honeypots.Prelude.{◌||◌, List, [], ◌∷◌, if◌then◌else◌}
use honeypots.Python.Bytes.{Bytes, Text, codes, join}
use honeypots.Python.Result.{Exn, Result, ok, raised}
use honeypots.Python.Value.{Value, text, dict, fields, int, item, word}
use honeypots.Base.Init.{truthy}
use honeypots.Session.{Handler, ◌>>=◌, ◌>>◌, lift, skip, write}
use honeypots.Base.{Server, Peer, log}

-- What the library reads of a packet.
pub record Packet : Type 0 where
  pub version : Value
  pub community : Value
  pub oids : List Text

-- The library's own exception, or another one.
pub data Parsed : Type 0 where
  packet : Packet → Parsed
  scapy_exception : Parsed
  other : Exn → Parsed

abbrev Triple : Type 0
Triple = Value × Value × Value

abbrev unknown : Value
unknown = text (codes "UnKnown")

unfoldable pub parse_snmp : (Bytes → Parsed) → Bytes → Result Triple
unfolding join
parse_snmp parse data_ = elim (parse data_) [
  | packet p ↦ ok (p.version, p.community, text (join (codes " ") p.oids))
  | scapy_exception ↦ ok (unknown, unknown, unknown)
  | other e ↦ raised e
]

module _ {S : Type 0} (q : Server) (parse : Bytes → Parsed) where
  unfoldable pub log_query : Peer → Triple → Handler S (Unit {0})
  unfolding log truthy
  log_query addr (version, community, oids) =
      if truthy version || (truthy community || truthy oids)
      then (do
        log q (
            word "action" "query"
            ∷ word "status" "success"
            ∷ item "src_ip" (text addr.host)
            ∷ item "src_port" (int addr.port)
            ∷ item "data" (
                dict (
                  fields
                    (item "version" version ∷ item "community" community ∷ item "oids" oids ∷ [])))
            ∷ [])
        write (codes "Error"))
      else skip

  unfoldable pub datagram_received : Bytes → Peer → Handler S (Unit {0})
  unfolding log parse_snmp log_query
  datagram_received data_ addr = do
    log q (
        word "action" "connection"
        ∷ word "status" "fail"
        ∷ item "src_ip" (text addr.host)
        ∷ item "src_port" (int addr.port)
        ∷ [])
    parsed ← lift (parse_snmp parse data_)
    log_query addr parsed
