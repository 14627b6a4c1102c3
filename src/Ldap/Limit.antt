-- ===== src/Ldap/Limit.antt =====
-- The bound on what one LDAP connection can make the server do.
use honeypots.Prelude.{ℕ, ◌+◌, ◌≤◌, ◌≡◌, none, some, List, [], ◌∷◌, arith, ◌⊎◌, ◌==◌, if◌then◌else◌}
use honeypots.Python.Bytes.{Bytes}
use honeypots.Python.Result.{ok}
use honeypots.Session.{logged}
use honeypots.Session.Feed.{cost, is_entry, is_write, feed_budget, feed_total}
use honeypots.Base.{Server, Peer, log}
use honeypots.Base.Login.{check_login_lem, login_entry}
use honeypots.Ldap.Packet.{parse_ldap_packet}
use honeypots.Ldap.{State, connection_made, check_packet, data_received, session}

-- the packets that the state still answers
abbrev budget : State → ℕ
budget none = 0
budget (some n) = if n == 1 then 2 else if n == 2 then 1 else 0

module _ (q : Server) (peer : Peer) where
  check_packet_cases :
      (c : Bytes) (s : State)
      → (check_packet q peer c s ≡ (ok tt, s, []))
        ⊎ (check_packet q peer c s ≡ (
          ok tt,
          s,
          logged (login_entry q (parse_ldap_packet c).0 (parse_ldap_packet c).1 peer.host peer.port)
              ∷ [],
        ))
  unfolding check_packet
  check_packet_cases c s = ground (
    arith,
    check_login_lem q (parse_ldap_packet c).0 (parse_ldap_packet c).1 peer.host peer.port s,
  )

  entries_pay :
      (c : Bytes) (s : State)
      → cost is_entry (data_received q peer c s).2 + budget (data_received q peer c s).1 ≤ budget s
  unfolding data_received
  entries_pay c none = ground arith
  entries_pay c (some n) =
      ground (arith, check_packet_cases c (some 2), check_packet_cases c (some 3))

  writes_pay :
      (c : Bytes) (s : State)
      → cost is_write (data_received q peer c s).2 + budget (data_received q peer c s).1 ≤ budget s
  unfolding data_received
  writes_pay c none = ground arith
  writes_pay c (some n) =
      ground (arith, check_packet_cases c (some 2), check_packet_cases c (some 3))

  never_raises : (c : Bytes) (s : State) → (data_received q peer c s).0 ≡ ok tt
  unfolding data_received
  never_raises c none = ground arith
  never_raises c (some n) =
      ground (arith, check_packet_cases c (some 2), check_packet_cases c (some 3))

  -- Whatever chunks an LDAP client sends after connecting, no handler raises, at most two packets
  -- are answered, and at most three entries are logged: the connection and two logins.
  pub session_limit :
      (cs : List Bytes)
      → ((session q peer cs none).0 ≡ ok tt)
        × (cost is_write (session q peer cs none).2 ≤ 2)
        × (cost is_entry (session q peer cs none).2 ≤ 3)
  unfolding session connection_made log
  session_limit cs = ground (
    arith,
    feed_total (data_received q peer) never_raises cs (some 1),
    feed_budget (data_received q peer) is_write budget writes_pay cs (some 1),
    feed_budget (data_received q peer) is_entry budget entries_pay cs (some 1),
  )
