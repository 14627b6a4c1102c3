-- ===== src/Manager/Started.antt =====
-- Which servers the manager starts, and on which ports.
use honeypots.Prelude.{
  ℕ, suc, ◌≡◌, refl, ap, true, false, Bool, List, [], ◌∷◌, ◌++◌, map, append-nil, append_assoc, All,
  none, arith,
}
use honeypots.Python.Bytes.{Text, codes, find, lower, bytes_eq}
use honeypots.Python.Result.{ok, result_or}
use honeypots.Python.Value.{Value, int}
use honeypots.Manager.{
  Options, State, World, Honeypot, Event, done, all_servers, is_known, member, run,
}
use honeypots.Manager.Start.{run_known, start_server, start_each, start_all_servers}

abbrev status_of : World → Value → Bool → Text → Bool
status_of w port auto name = result_or false (w.run_server name port auto)

abbrev pub honeypot : World → Value → Bool → Text → Honeypot
honeypot w port auto name = record { name = name; status = status_of w port auto name }

abbrev run_event : Value → Bool → Text → Event
run_event port auto name = run name port auto

-- The state behind the start of some servers on one port.
abbrev pub after_runs : World → Bool → List Text → State → State
after_runs w auto names s = record s {
  honeypots = s.honeypots ++ map (honeypot w s.port_arg auto) names;
  events = s.events ++ map (run_event s.port_arg auto) names;
}

-- A known service whose constructor and whose `run_server` raise nothing for the port.
abbrev pub Startable : World → Value → Bool → Text → Type 0
Startable w port auto name =
    (is_known name ≡ true)
    × ((w.construct name port ≡ ok tt)
        × (w.run_server name port auto ≡ ok (status_of w port auto name)))

-- The services that the README names, in the order in which the manager starts them.
abbrev pub services : List Text
services =
    codes "dhcp"
    ∷ codes "dns"
    ∷ codes "elastic"
    ∷ codes "ftp"
    ∷ codes "httpproxy"
    ∷ codes "https"
    ∷ codes "http"
    ∷ codes "imap"
    ∷ codes "ipp"
    ∷ codes "irc"
    ∷ codes "ldap"
    ∷ codes "mssql"
    ∷ codes "memcache"
    ∷ codes "mysql"
    ∷ codes "ntp"
    ∷ codes "oracle"
    ∷ codes "pjl"
    ∷ codes "pop3"
    ∷ codes "postgres"
    ∷ codes "rdp"
    ∷ codes "redis"
    ∷ codes "sip"
    ∷ codes "smb"
    ∷ codes "smtp"
    ∷ codes "snmp"
    ∷ codes "socks5"
    ∷ codes "ssh"
    ∷ codes "telnet"
    ∷ codes "vnc"
    ∷ []

services_known : All (λ name. is_known name ≡ true) services
unfolding all_servers is_known member lower bytes_eq
services_known = ground arith

startable :
    (w : World) (port : Value) (auto : Bool) (names : List Text)
    → All (λ name. is_known name ≡ true) names
    → ((name : Text) → w.construct name port ≡ ok tt)
    → ((name : Text) → w.run_server name port auto ≡ ok (status_of w port auto name))
    → All (Startable w port auto) names
startable w port auto [] k c r = tt
startable w port auto (name ∷ names) k c r =
    ((k.0, (c name, r name)), startable w port auto names k.1 c r)

module _ (w : World) (o : Options) (live : o.test ≡ false) where
  start_server_lem :
      (name : Text) (auto : Bool) (s : State)
      → Startable w s.port_arg auto name
      → start_server w o name auto s ≡ (done tt, after_runs w auto (name ∷ []) s)
  unfolding start_server run_known
  start_server_lem name auto s h = rw (h.0, h.1.0, live, h.1.1) refl

  after_runs_cons :
      (auto : Bool) (name : Text) (names : List Text) (s : State)
      → after_runs w auto names (after_runs w auto (name ∷ []) s)
        ≡ after_runs w auto (name ∷ names) s
  after_runs_cons auto name names s =
      rw
        (
          append_assoc s.honeypots (honeypot w s.port_arg auto name ∷ [])
              (map (honeypot w s.port_arg auto) names),
          append_assoc s.events (run_event s.port_arg auto name ∷ [])
              (map (run_event s.port_arg auto) names),
        )
        refl

  pub start_each_lem :
      (auto : Bool) (names : List Text) (s : State)
      → All (Startable w s.port_arg auto) names
      → start_each w o auto names s ≡ (done tt, after_runs w auto names s)
  unfolding start_each
  start_each_lem auto [] s h = rw (append-nil s.honeypots, append-nil s.events) refl
  start_each_lem auto (name ∷ names) s h = rw (start_server_lem name auto s h.0) (
      rw (start_each_lem auto names (after_runs w auto (name ∷ []) s) h.1)
        (ap (λ t. (done tt, t)) (after_runs_cons auto name names s)))

  pub start_all_servers_runs :
      (auto : Bool) (s : State)
      → ((name : Text) → w.construct name s.port_arg ≡ ok tt)
      → ((name : Text) → w.run_server name s.port_arg auto ≡ ok (status_of w s.port_arg auto name))
      → start_all_servers w o auto s ≡ (done tt, after_runs w auto services s)
  unfolding start_all_servers is_known
  start_all_servers_runs auto s c r =
      rw (start_each_lem auto services s (startable w s.port_arg auto services services_known c r))
        refl

  -- The services of one `--setup` behind the first that has a port of its own.
  abbrev Plain : Text → Type 0
  Plain name = find (codes ":") name ≡ none

  on_port : ℕ → State → State
  on_port n s = record s { port = int (suc n); port_arg = int (suc n) }
