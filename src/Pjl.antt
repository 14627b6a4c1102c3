-- ===== src/Pjl.antt =====
-- pjl_server.py: the protocol object of one connection, and the template of the printer.
pub mod Echo
use honeypots.Prelude.{ℕ, Option, none, some, String, List, [], ◌∷◌, ◌++◌, drop, if◌then◌else◌}
use honeypots.Python.Bytes.{Bytes, Text, codes, join, lower, replace, starts_with}
use honeypots.Python.Utf8.{encode}
use honeypots.Python.Value.{text, int, item, word, fields, dict}
use honeypots.Session.{Handler, ◌>>=◌, ◌>>◌, modify, write, lose_connection, skip}
use honeypots.Base.{Server, Peer, log, log_connection}
use honeypots.Helper.{bytes, check_bytes}

abbrev pub printer : Bytes
printer = codes "Brother HL-L2360"

unfoldable pub template : List (String × String)
template =
    ("ProductName", "Brother HL-L2360")
    ∷ ("FormatterNumber", "Q910CHL")
    ∷ ("PrinterNumber", "L2360")
    ∷ ("ProductSerialNumber", "VNB1897514")
    ∷ ("ServiceID", "20157")
    ∷ ("FirmwareDateCode", "20051103")
    ∷ ("MaxPrintResolution", "900")
    ∷ ("ControllerNumber", "Q910CHL")
    ∷ ("DeviceDescription", "Brother HL-L2360")
    ∷ ("DeviceLang", "ZJS PJL")
    ∷ ("TotalMemory", "6890816")
    ∷ ("AvailableMemory", "3706526")
    ∷ ("Personality", "0")
    ∷ ("EngFWVer", "10")
    ∷ ("IPAddress", "172.17.0.2")
    ∷ ("HWAddress", "0025B395EA01")
    ∷ []

abbrev template_lines : List (String × String) → List Text
template_lines [] = []
template_lines ((k, v) ∷ items) = (codes k ++ (codes " = " ++ codes v)) ∷ template_lines items

-- `_state`
abbrev pub State : Type 0
State = Option ℕ

unfoldable pub connection_made : Server → Peer → Handler State (Unit {0})
connection_made q peer = do modify (λ _. some 1); log_connection q peer

-- the sequence that leaves the language of the printer
abbrev pub universal_exit : Bytes
universal_exit = 0x1b ∷ codes "%-12345X"

unfoldable pub without_exit : Bytes → Bytes
unfolding replace
without_exit = replace universal_exit []

-- the answer to a command, if there is one
unfoldable pub answer : Bytes → Option Bytes
unfolding lower starts_with join encode
answer data_ =
    if starts_with (codes "@pjl echo") (lower data_)
    then some (codes "@PJL " ++ (drop 10 data_ ++ 0x1b ∷ []))
    else if starts_with (codes "@pjl info id") (lower data_)
    then some (codes "@PJL INFO ID\r\n" ++ (printer ++ (codes "\r\n" ++ 0x1b ∷ [])))
    else if starts_with (codes "@pjl prodinfo") (lower data_)
    then some (encode (join (codes "\r\n") (template_lines template)) ++ 0x1b ∷ [])
    else none

abbrev write_answer : Option Bytes → Handler State (Unit {0})
write_answer none = skip
write_answer (some reply) = write reply

unfoldable pub data_received : Server → Peer → Bytes → Handler State (Unit {0})
data_received q peer raw = do
  write_answer (answer (without_exit raw))
  log q (
      word "action" "query"
      ∷ item "status" (text (codes "success"))
      ∷ item "src_ip" (text peer.host)
      ∷ item "src_port" (int peer.port)
      ∷ item "data"
          (dict (fields (item "command" (text (check_bytes (bytes (without_exit raw)))) ∷ [])))
      ∷ [])
  lose_connection

unfoldable pub connection_lost : Handler State (Unit {0})
connection_lost = modify (λ _. none)
