-- ===== src/Dhcp/Tests.antt =====
-- The theorems on dhcp_server.py at concrete options.
use honeypots.Prelude.{ℕ, ◌≡◌, arith, List, [], ◌∷◌}
use honeypots.Python.Bytes.{Bytes, Text, codes, bytes_eq, str}
use honeypots.Python.Dict.{Dict, put}
use honeypots.Python.Result.{Result, ok}
use honeypots.Dhcp.Options.{parse_options}
use honeypots.Dhcp.Options.RoundTrip.{encode_options, parse-encode_options}
use honeypots.Dhcp.Datagram.{Network}
use honeypots.Dhcp.Datagram.Reply.{Addresses}

abbrev options : List (ℕ × Bytes)
options = (53, 1 ∷ []) ∷ (12, codes "host") ∷ []

abbrev parsed : Dict Text
parsed = (codes "53", 1 ∷ []) ∷ (codes "12", codes "host") ∷ []

parse-encode_options_example : parse_options (encode_options options) ≡ parsed
unfolding str put bytes_eq
parse-encode_options_example = parse-encode_options options (ground arith)

abbrev inet_aton : Text → Result Bytes
inet_aton t = ok (10 ∷ 0 ∷ 0 ∷ 1 ∷ [])

abbrev four : Bytes
four = 10 ∷ 0 ∷ 0 ∷ 1 ∷ []

abbrev addresses : Addresses
addresses = record {
  lease = four;
  server = four;
  mask = four;
  router = four;
  dns = four;
  any_address = four;
}

abbrev network : Network
network = record {
  dhcp_ip_lease = [];
  dhcp_ip = [];
  subnet_mask = [];
  router = [];
  dns_server = [];
}
