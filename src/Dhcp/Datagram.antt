-- ===== src/Dhcp/Datagram.antt =====
-- `datagramReceived` and `payload` of dhcp_server.py. `inet_aton` is the C library's, a parameter.
pub mod Reply
use honeypots.Prelude.{
  ℕ, ◌+◌, ◌/◌, ◌%◌, Option, none, some, List, [], ◌∷◌, ◌++◌, length, take, drop, replicate, ◌==◌,
  if◌then◌else◌,
}
use honeypots.Python.Bytes.{Bytes, Text, codes, slice, hex}
use honeypots.Python.Dict.{Dict, put}
use honeypots.Python.Value.{Value, Fields, end, field, text, int, dict, item, word}
use honeypots.Python.Result.{Result, ok, raised, ◌>>=◌, struct_error, value_error}
use honeypots.Session.{Handler}
use honeypots.Base.{Server, Peer, log}
use honeypots.Dhcp.Options.{parse_options}

-- `data.hex(":")`
unfoldable pub hex_colon : Bytes → Text
unfolding hex
hex_colon [] = []
hex_colon (b ∷ []) = hex (b ∷ [])
hex_colon (b ∷ c ∷ bs) = hex (b ∷ []) ++ b':' ∷ hex_colon (c ∷ bs)

-- `struct.unpack("!28x6s", data[:34])[0].hex(":")`, or the text of the handler
unfoldable pub mac_address : Bytes → Text
unfolding hex_colon
mac_address data_ =
    if length (take 34 data_) == 34 then hex_colon (drop 28 (take 34 data_)) else codes "None"

abbrev pub text_fields : Dict Text → Fields
text_fields [] = end
text_fields ((k, v) ∷ d) = field k (text v) (text_fields d)

unfoldable pub datagram_received : {S : Type 0} → Server → Bytes → Peer → Handler S (Unit {0})
unfolding mac_address parse_options put log
datagram_received q data_ addr =
    let options = put (parse_options (drop 240 data_)) (codes "mac_address") (mac_address data_) in
    log q (
      word "action" "query"
      ∷ word "status" "success"
      ∷ item "src_ip" (text addr.host)
      ∷ item "src_port" (int addr.port)
      ∷ item "data" (dict (text_fields options))
      ∷ [])

-- The attributes of the server that `payload` reads.
pub record Network : Type 0 where
  pub dhcp_ip_lease : Text
  pub dhcp_ip : Text
  pub subnet_mask : Text
  pub router : Text
  pub dns_server : Text

module _ (inet_aton : Text → Result Bytes) (n : Network) where
  unfoldable pub reply_options : ℕ → Result Bytes
  reply_options value = do
    server ← inet_aton n.dhcp_ip
    mask ← inet_aton n.subnet_mask
    router ← inet_aton n.router
    dns ← inet_aton n.dns_server
    ok (
        53
        ∷ 1
        ∷ value
        ∷ 54
        ∷ 4
        ∷ (server
            ++ 1
              ∷ 4
              ∷ (mask
                  ++ 3
                    ∷ 4
                    ∷ (router ++ 6 ∷ 4 ∷ (dns ++ 51 ∷ 4 ∷ 0x00 ∷ 0x00 ∷ 0xa8 ∷ 0xc0 ∷ 0xff ∷ [])))))

  -- A message of fewer than 44 bytes is refused by `struct.unpack`.
  unfoldable pub payload : ℕ → Bytes → Result Bytes
  payload value message =
      if length (take 44 message) == 44
      then (do
        lease ← inet_aton n.dhcp_ip_lease
        server ← inet_aton n.dhcp_ip
        gateway ← inet_aton (codes "0.0.0.0")
        options ← reply_options value
        let xid = slice 4 8 message
        let chaddr = slice 28 44 message
        let head = (2 ∷ 1 ∷ 6 ∷ 0 ∷ xid) ++ replicate 8 0
        let addresses = lease ++ (server ++ (gateway ++ chaddr))
        ok (
            head
            ++ (addresses
                ++ (replicate 64 0 ++ (replicate 128 0 ++ 0x63 ∷ 0x82 ∷ 0x53 ∷ 0x63 ∷ options)))))
      else raised struct_error
