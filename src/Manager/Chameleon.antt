-- ===== src/Manager/Chameleon.antt =====
-- `_start_chameleon_mode`: the servers that a configuration names.
use honeypots.Prelude.{Bool, true, false, ◌||◌, Option, none, some, List, if◌then◌else◌}
use honeypots.Python.Bytes.{Text, codes, find, split}
use honeypots.Python.Result.{Exn}
use honeypots.Base.Init.{truthy, to_int}
use honeypots.Manager.{
  Options, Action, World, ◌>>=◌, ◌>>◌, skip, raise, exit, lift, gets, modify, emit, waited,
}
use honeypots.Manager.Start.{start_each}
use honeypots.Manager.Setup.{stop_servers}
use honeypots.Manager.Sniffer.{set_up_sniffer}

-- `honeypots` of the configuration: a dictionary, by its keys, a text, or something else.
pub data Named : Type 0 where
  hard : List Text → Named
  easy : Text → Named
  neither : Named

-- The entries of the configuration; none where a key is missing.
pub record Config : Type 0 where
  pub logs : Option Text
  pub honeypots : Option Named
  pub sniffer_interface : Option Text

-- `word in logs`
abbrev mentions : Text → Text → Bool
mentions w logs = elim (find w logs) [ none ↦ false | some i ↦ true ]

unfoldable pub logs_to_db : Config → Action (Unit {0})
unfolding find
logs_to_db c = elim c.logs [
  | none ↦ raise Exn.key_error
  | some logs ↦
      if mentions (codes "db_sqlite") logs || mentions (codes "db_postgres") logs
      then skip
      else exit 1
]

module _ (w : World) (o : Options) where
  unfoldable pub start_named : Bool → Named → Action (Unit {0})
  unfolding start_each find split
  start_named auto (hard names) = start_each w o auto names
  start_named auto (easy names) = elim (find (codes ":") names) [
    | some i ↦ exit 1
    | none ↦ start_each w o auto (split (codes ",") names)
  ]
  start_named auto neither = exit 1

  abbrev start_configuration : Bool → Option Named → Action (Unit {0})
  start_configuration auto none = raise Exn.key_error
  start_configuration auto (some named) = start_named auto named

  -- `if self.options.port: self.options.port = int(self.options.port)`
  unfoldable pub convert_port : Action (Unit {0})
  unfolding truthy to_int
  convert_port = do
    port ← gets (λ s. s.port)
    if truthy port then (do n ← lift (to_int port); modify (λ s. record s { port = n })) else skip

  -- The end: the loop of the statistics, which does not return, or the end of a test.
  unfoldable pub watch : Action (Unit {0})
  unfolding stop_servers
  watch = if o.test then stop_servers w o else emit (waited (codes "stats"))

  unfoldable pub start_chameleon_mode : Bool → Config → Action (Unit {0})
  unfolding logs_to_db convert_port start_named set_up_sniffer watch
  start_chameleon_mode auto c = do
    logs_to_db c
    convert_port
    modify (λ s. record s { port_arg = s.port })
    start_configuration auto c.honeypots
    if o.sniffer then set_up_sniffer w o c.sniffer_interface else skip
    watch
