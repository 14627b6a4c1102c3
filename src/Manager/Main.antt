-- ===== src/Manager/Main.antt =====
-- `main`, the constructor and `_load_config` of the manager.
use honeypots.Prelude.{ℕ, Bool, true, false, not, ◌&&◌, ◌==◌, none, List, [], ◌∷◌, if◌then◌else◌}
use honeypots.Python.Bytes.{Text}
use honeypots.Manager.{
  Options, Action, World, all_servers, ◌>>=◌, ◌>>◌, pure, skip, exit, emit, listed, cleaned,
}
use honeypots.Manager.Setup.{set_up_honeypots}
use honeypots.Manager.Sniffer.{set_up_sniffer}
use honeypots.Manager.Chameleon.{Config, start_chameleon_mode}

-- What the path of the configuration names: an object of JSON, which is empty or not.
pub data ConfigFile : Type 0 where
  missing not_json : ConfigFile
  json : Bool → Config → ConfigFile

-- Whether the configuration is not empty, and the configuration.
abbrev Loaded : Type 0
Loaded = Bool × Config

unfoldable pub no_config : Loaded
no_config = (false, record { logs = none; honeypots = none; sniffer_interface = none })

unfoldable pub load_config : ConfigFile → Action Loaded
load_config missing = exit 1
load_config not_json = exit 1
load_config (json full c) = pure (full, c)

-- `self.auto` of the constructor: never as root
abbrev pub auto_of : Options → ℕ → Bool
auto_of o euid = o.auto && not (euid == 0)

unfoldable pub list_each : List Text → Action (Unit {0})
list_each [] = skip
list_each (t ∷ ts) = do emit (listed t); list_each ts

abbrev is_set : Text → Bool
is_set [] = false
is_set (x ∷ t) = true

module _ (w : World) (o : Options) where
  unfoldable pub main : Bool → Loaded → Action (Unit {0})
  unfolding list_each all_servers start_chameleon_mode set_up_sniffer set_up_honeypots
  main auto (full, c) =
      if o.list
      then list_each all_servers
      else if o.kill
      then emit cleaned
      else if o.chameleon && full
      then start_chameleon_mode w o auto c
      else if is_set o.setup
      then (do
        if o.sniffer then set_up_sniffer w o c.sniffer_interface else skip
        set_up_honeypots w o auto)
      else skip

  -- `HoneypotsManager(argv, server_args).main()`: the port is a text of the command line.
  unfoldable pub main_logic : ConfigFile → ℕ → Action (Unit {0})
  unfolding load_config no_config main
  main_logic file euid = do
    loaded ← (if is_set o.config then load_config file else pure no_config)
    main (auto_of o euid) loaded
