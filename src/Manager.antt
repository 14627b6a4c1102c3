-- ===== src/Manager.antt =====
-- __main__.py: the manager that starts the servers which the command line or a configuration names.
pub mod Start
pub mod Setup
pub mod Sniffer
pub mod Chameleon
pub mod Main
pub mod Started
pub mod Stopped
mod Tests
use honeypots.Prelude.{ℕ, Bool, true, false, ◌||◌, List, [], ◌∷◌, ◌++◌, if◌then◌else◌}
use honeypots.Python.Bytes.{Text, codes, bytes_eq, lower}
use honeypots.Python.Result.{Exn, Result, ok, raised}
use honeypots.Python.Value.{Value}

-- The keys of `all_servers`, in their order.
unfoldable pub all_servers : List Text
all_servers =
    codes "dhcp"
    ∷ codes "dns"
    ∷ codes "elastic"
    ∷ codes "ftp"
    ∷ codes "httpproxy"
    ∷ codes "https"
    ∷ codes "http"
    ∷ codes "imap"
    ∷ codes "ipp"
    ∷ codes "irc"
    ∷ codes "ldap"
    ∷ codes "mssql"
    ∷ codes "memcache"
    ∷ codes "mysql"
    ∷ codes "ntp"
    ∷ codes "oracle"
    ∷ codes "pjl"
    ∷ codes "pop3"
    ∷ codes "postgres"
    ∷ codes "rdp"
    ∷ codes "redis"
    ∷ codes "sip"
    ∷ codes "smb"
    ∷ codes "smtp"
    ∷ codes "snmp"
    ∷ codes "socks5"
    ∷ codes "ssh"
    ∷ codes "telnet"
    ∷ codes "vnc"
    ∷ []

unfoldable pub member : Text → List Text → Bool
unfolding bytes_eq
member t [] = false
member t (u ∷ l) = bytes_eq t u || member t l

-- `all_servers.get(service.lower())`
unfoldable pub is_known : Text → Bool
unfolding member all_servers lower
is_known service = member (lower service) all_servers

-- The parsed command line; `config` is empty where no file is named.
pub record Options : Type 0 where
  pub list : Bool
  pub kill : Bool
  pub chameleon : Bool
  pub test : Bool
  pub auto : Bool
  pub sniffer : Bool
  pub iptables : Bool
  pub setup : Text
  pub config : Text
  pub termination_strategy : Text

-- An element of `self.honeypots`.
pub record Honeypot : Type 0 where
  pub name : Text
  pub status : Bool

-- What the manager does to the outside: a server is run in a process of its own with the port it was
-- constructed with, or tested, or killed.
pub data Event : Type 0 where
  run : Text → Value → Bool → Event
  tested : Text → Event
  killed : Text → Event
  listed : Text → Event
  cleaned : Event
  waited : Text → Event
  iptables_fixed : Event
  sniffer_run : Event

-- `port` is `self.options.port`, `port_arg` is `self.server_args["port"]`.
pub record State : Type 0 where
  pub port : Value
  pub port_arg : Value
  pub honeypots : List Honeypot
  pub events : List Event

-- How a call of the manager ends: it returns, it raises, or it leaves the program.
pub data Ending {ℓ} (A : Type ℓ) : Type ℓ where
  done : A → Ending A
  failed : Exn → Ending A
  exited : ℕ → Ending A

abbrev pub Action : Type 0 → Type 0
Action A = State → Ending A × State

abbrev continue : {A B : Type 0} → Ending A × State → (A → Action B) → Ending B × State
continue (done a, s) f = f a s
continue (failed e, s) f = (failed e, s)
continue (exited n, s) f = (exited n, s)

infixl 10 ◌>>=◌ ◌>>◌
abbrev pub ◌>>=◌ : {A B : Type 0} → Action A → (A → Action B) → Action B
◌>>=◌ m f s = continue (m s) f

abbrev pub ◌>>◌ : {A B : Type 0} → Action A → Action B → Action B
m >> n = m >>= λ _. n

abbrev pub pure : {A : Type 0} → A → Action A
pure a s = (done a, s)

abbrev pub skip : Action (Unit {0})
skip = pure tt

abbrev pub exit : {A : Type 0} → ℕ → Action A
exit n s = (exited n, s)

abbrev pub raise : {A : Type 0} → Exn → Action A
raise e s = (failed e, s)

abbrev pub lift : {A : Type 0} → Result A → Action A
lift (ok a) s = (done a, s)
lift (raised e) s = (failed e, s)

abbrev pub gets : {A : Type 0} → (State → A) → Action A
gets f s = (done (f s), s)

abbrev pub modify : (State → State) → Action (Unit {0})
modify f s = (done tt, f s)

abbrev pub emit : Event → Action (Unit {0})
emit e = modify (λ s. record s { events = s.events ++ e ∷ [] })

abbrev pub add_honeypot : Text → Bool → Action (Unit {0})
add_honeypot name status =
    modify
      (λ s. record s { honeypots = s.honeypots ++ record { name = name; status = status } ∷ [] })

-- `try: ... except Exception` with a handler that only logs
abbrev caught : Ending (Unit {0}) × State → Ending (Unit {0}) × State
caught (failed e, s) = (done tt, s)
caught (r, s) = (r, s)

abbrev pub try_ : Action (Unit {0}) → Action (Unit {0})
try_ m s = caught (m s)

-- What the manager meets outside: the constructor of a server on its port and `run_server`, which may
-- raise; whether a kill raises; how the wait for the end is over, with an `EOFError` for instance where
-- the input is closed; the interfaces of the system.
pub record World : Type 0 where
  pub construct : Text → Value → Result (Unit {0})
  pub run_server : Text → Value → Bool → Result Bool
  pub kill_raises : Text → Bool
  pub waits : Text → Result (Unit {0})
  pub interfaces : Result Text
  pub addresses : Text → Result (Unit {0})
  pub sniffer_alive : Bool
