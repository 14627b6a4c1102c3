-- ===== src/Sniffer/Tests.antt =====
-- A scan by the machine itself.
use honeypots.Prelude.{◌≡◌, true, none, some, [], ◌∷◌}
use honeypots.Python.Bytes.{codes}
use honeypots.Python.Value.{end}
use honeypots.Sniffer.{Sniffer, Packet, answered, capture_logic}
use honeypots.Sniffer.Capture.{answers, answers-capture_logic}

abbrev sniffer : Sniffer
sniffer = record {
  current_ip = codes "10.0.0.5";
  current_mac = codes "aa:bb";
  method = codes "TCPUDP";
  can_send = true;
}

abbrev own_scan : Packet
own_scan = record {
  layers = record { name = codes "IP"; fields = end; load = none } ∷ [];
  ip = some (record { src = codes "10.0.0.5"; dst = codes "10.0.0.9" });
  tcp = some (record { sport = 4000; dport = 22; flags = 2; seq = 7 });
  udp = none;
  icmp = none;
}

answers-capture_logic_example :
    answers (capture_logic sniffer own_scan)
    ≡ answered (codes "10.0.0.9") (codes "10.0.0.5") 22 4000 8 ∷ []
answers-capture_logic_example = answers-capture_logic sniffer own_scan
