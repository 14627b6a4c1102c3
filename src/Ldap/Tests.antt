-- ===== src/Ldap/Tests.antt =====
-- The theorems on ldap_server.py at concrete packets.
use honeypots.Prelude.{◌≡◌, ◌≤◌, inl, arith, none, [], ◌∷◌, ◌++◌}
use honeypots.Python.Bytes.{Bytes, codes}
use honeypots.Python.Utf8.{decode_replace}
use honeypots.Python.Result.{ok}
use honeypots.Session.Feed.{cost, is_entry, is_write}
use honeypots.Base.Samples.{server, peer}
use honeypots.Ldap.Packet.{parse_ldap_packet}
use honeypots.Ldap.{session}
use honeypots.Ldap.Bind.{bind_header, bind_body, parse-bind}
use honeypots.Ldap.Limit.{session_limit}

abbrev packet : Bytes
packet = bind_header 14 1 9 ++ bind_body (codes "cn") (codes "pw") []

parse-bind_example : parse_ldap_packet packet ≡ (codes "cn", codes "pw")
unfolding decode_replace
parse-bind_example =
    parse-bind 14 1 9 (codes "cn") (codes "pw") []
      (omega arith, (omega arith, (omega arith, omega arith))) (omega arith) (inl (omega arith))

session_limit_example :
    ((session server peer (packet ∷ packet ∷ packet ∷ []) none).0 ≡ ok tt)
    × (cost is_write (session server peer (packet ∷ packet ∷ packet ∷ []) none).2 ≤ 2)
    × (cost is_entry (session server peer (packet ∷ packet ∷ packet ∷ []) none).2 ≤ 3)
session_limit_example = session_limit server peer (packet ∷ packet ∷ packet ∷ [])
