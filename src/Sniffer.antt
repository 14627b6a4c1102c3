-- ===== src/Sniffer.antt =====
-- sniffer.py: what a captured packet leaves in the log. The packets are those of the library for
-- captures, here as their layers with the fields that the sniffer reads.
pub mod Messages
pub mod Capture
mod Tests
use honeypots.Prelude.{
  ℕ, Bool, true, false, not, ◌&&◌, ◌||◌, ◌+◌, Option, none, some, List, [], ◌∷◌, ◌++◌, ltb, ◌==◌,
  if◌then◌else◌,
}
use honeypots.Python.Bytes.{Bytes, Text, codes, find, hex, bytes_eq, lower}
use honeypots.Python.Value.{
  Value, Items, Fields, fields, text, bytes, int, array, dict, nil, cons, end, field, get, put, has,
  item, word,
}
use honeypots.Python.Result.{Exn}
use honeypots.Sniffer.Messages.{find_icmp}

-- A layer by its name, its fields, and the payload of a raw layer.
pub record Layer : Type 0 where
  pub name : Text
  pub fields : Fields
  pub load : Option Bytes

-- The addresses of the layer IP.
pub record Ip : Type 0 where
  pub src : Text
  pub dst : Text

-- The ports, the flags and the sequence number of a layer TCP or UDP.
pub record Ports : Type 0 where
  pub sport : ℕ
  pub dport : ℕ
  pub flags : ℕ
  pub seq : ℕ

pub record Icmp : Type 0 where
  pub type_ : ℕ
  pub code : ℕ

-- `packet[name]` for the layers that the sniffer asks for, where the packet has them.
pub record Packet : Type 0 where
  pub layers : List Layer
  pub ip : Option Ip
  pub tcp : Option Ports
  pub udp : Option Ports
  pub icmp : Option Icmp

-- A log entry, an entry of the error log, the answer to a scan: source, destination, their ports
-- and the acknowledged number.
pub data Event : Type 0 where
  logged : Fields → Event
  error : ℕ → Event
  answered : Text → Text → ℕ → ℕ → ℕ → Event

-- The attributes of a `QSniffer`; the addresses of the interface are byte strings. `can_send` says
-- whether the system lets the library send a packet.
pub record Sniffer : Type 0 where
  pub current_ip : Bytes
  pub current_mac : Bytes
  pub method : Text
  pub can_send : Bool

-- the items of `log`, which replace what an entry has under the same keys
unfoldable pub log : Sniffer → List (Text × Value) → Event
unfolding put
log q log_data = logged (
    put (put (fields log_data) (codes "ip") (bytes q.current_ip)) (codes "mac")
      (bytes q.current_mac))

-- `re.search(rb"pass|user|login", payload)`
unfoldable pub is_common : Bytes → Bool
unfolding find
is_common payload = occurs (codes "pass") || occurs (codes "user") || occurs (codes "login")
  where
    occurs : Bytes → Bool
    occurs word = elim (find word payload) [ none ↦ false | some i ↦ true ]

-- `_fields`, `hex_payloads` and `raw_payloads`
pub record Payloads : Type 0 where
  pub fields : Fields
  pub hex_payloads : Fields
  pub raw_payloads : Fields

abbrev pub no_payloads : Payloads
no_payloads = record { fields = end; hex_payloads = end; raw_payloads = end }

abbrev add : Layer → Bytes → Payloads → Payloads
add l load p = record {
  fields = put p.fields l.name (dict l.fields);
  hex_payloads = put p.hex_payloads l.name (bytes (hex load));
  raw_payloads = put p.raw_payloads l.name (bytes load);
}

abbrev add_fields : Layer → Payloads → Payloads
add_fields l p = record p { fields = put p.fields l.name (dict l.fields) }

-- `packet[name]`: the first layer of that name
unfoldable pub layer_of : List Layer → Layer → Layer
unfolding bytes_eq
layer_of [] l = l
layer_of (m ∷ ms) l = if bytes_eq m.name l.name then m else layer_of ms l

abbrev creds_check : Sniffer → Bytes → List Event
creds_check q load =
    if is_common load
    then log q (word "action" "creds_check" ∷ item "payload" (bytes load) ∷ []) ∷ []
    else []

-- One round of the loop over the layers.
unfoldable pub read_layer : Sniffer → Layer → Payloads → Payloads × List Event
unfolding put log is_common
read_layer q l p = elim l.load [
  | none ↦ (add_fields l p, [])
  | some load ↦ (add l load p, creds_check q load)
]

unfoldable pub read_layers : Sniffer → List Layer → List Layer → Payloads → Payloads × List Event
unfolding read_layer layer_of
read_layers q all [] p = (p, [])
read_layers q all (l ∷ ls) p =
    let (p1, o1) = read_layer q (layer_of all l) p in
    let (p2, o2) = read_layers q all ls p1 in (p2, o1 ++ o2)

unfoldable pub get_payloads : Sniffer → Packet → Payloads × List Event
unfolding read_layers
get_payloads q packet = read_layers q packet.layers packet.layers no_payloads

abbrev names : List Layer → Items
names [] = nil
names (l ∷ ls) = cons (text l.name) (names ls)

-- `==` on texts and byte strings: a text and a byte string are never equal.
unfoldable pub equal : Value → Value → Bool
unfolding bytes_eq
equal (text a) (text b) = bytes_eq a b
equal (bytes a) (bytes b) = bytes_eq a b
equal _ _ = false

-- `packet["IP"].src != self.current_ip`
unfoldable pub is_foreign : Sniffer → Ip → Bool
unfolding equal
is_foreign q i = not (equal (text i.src) (bytes q.current_ip))

abbrev log_ports : Sniffer → Ip → Text → Option Ports → Payloads → List Event
log_ports q i action none p = []
log_ports q i action (some t) p =
    log q (
      item "action" (text action)
      ∷ item "dest_ip" (text i.src)
      ∷ item "dest_port" (int t.sport)
      ∷ item "dst_ip" (text i.dst)
      ∷ item "dst_port" (int t.dport)
      ∷ item "raw_payload" (dict p.raw_payloads)
      ∷ item "payload" (dict p.hex_payloads)
      ∷ [])
    ∷ []

-- `_log_tcp_udp`
unfoldable pub log_tcp_udp : Sniffer → Packet → Ip → Payloads → List Event
unfolding log
log_tcp_udp q packet i p =
    log_ports q i (codes "tcppayload") packet.tcp p
    ++ log_ports q i (codes "udppayload") packet.udp p

-- `_handle_tcp_scan`: the entry, and the answer with the flags SA. The number of an answer has four
-- bytes: a larger one cannot be packed. What `send` raises is caught by the end of `capture_logic`.
unfoldable pub handle_tcp_scan : Sniffer → Ip → Ports → Payloads → List Event
unfolding log
handle_tcp_scan q i t p =
    log_ports q i (codes "tcpscan") (some t) p
    ++ (if q.can_send && ltb (t.seq + 1) 0x100000000
        then answered i.dst i.src t.dport t.sport (t.seq + 1)
        else error 5)
      ∷ []

abbrev is_empty : Fields → Bool
is_empty end = true
is_empty (field k v d) = false

-- the first `if` of `capture_logic`
unfoldable pub log_payloads : Sniffer → Packet → Payloads → List Event
unfolding bytes_eq log is_foreign log_tcp_udp
log_payloads q packet p =
    if bytes_eq q.method (codes "ALL")
    then log q (
        word "action" "all"
        ∷ item "layers" (array (names packet.layers))
        ∷ item "fields" (dict p.fields)
        ∷ item "payload" (dict p.hex_payloads)
        ∷ [])
      ∷ []
    else if bytes_eq q.method (codes "TCPUDP")
    then elim packet.ip [
      | none ↦ []
      | some i ↦
          if not (is_empty p.hex_payloads) && is_foreign q i then log_tcp_udp q packet i p else []
    ]
    else []

unfoldable pub log_icmp : Sniffer → Option Ip → Option Icmp → List Event
unfolding log is_foreign find_icmp
log_icmp q (some i) (some m) =
    if is_foreign q i
    then log q (
        word "action" "icmp"
        ∷ item "dest_ip" (text i.src)
        ∷ item "dst_ip" (text i.dst)
        ∷ item "ICMP_Code" (int m.code)
        ∷ item "ICMP_Type" (int m.type_)
        ∷ item "ICMP_MSG" (text (find_icmp m.type_ m.code))
        ∷ [])
      ∷ []
    else []
log_icmp q _ _ = []

abbrev pub syn_flag : ℕ
syn_flag = 2

unfoldable pub answer_scan : Sniffer → Option Ip → Option Ports → Payloads → List Event
unfolding is_foreign handle_tcp_scan
answer_scan q (some i) (some t) p =
    if is_foreign q i && t.flags == syn_flag then handle_tcp_scan q i t p else []
answer_scan q _ _ p = []

unfoldable pub capture_logic : Sniffer → Packet → List Event
unfolding get_payloads log_payloads log_icmp answer_scan
capture_logic q packet =
    let (p, o) = get_payloads q packet in
    o
    ++ log_payloads q packet p
    ++ log_icmp q packet.ip packet.icmp
    ++ answer_scan q packet.ip packet.tcp p
