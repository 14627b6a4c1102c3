-- ===== src/Manager/Tests.antt =====
-- Command lines and systems to run the theorems on.
use honeypots.Prelude.{inl, refl, true, false, none, some, [], ◌∷◌}
use honeypots.Python.Bytes.{Text, codes, bytes_eq}
use honeypots.Python.Result.{ok}
use honeypots.Python.Value.{text}
use honeypots.Manager.{Options, State, World}
use honeypots.Manager.Setup.{start_asked, set_up_honeypots}
use honeypots.Manager.Chameleon.{Config, hard}
use honeypots.Manager.Started.{services, after_runs, start_all_servers_runs}
use honeypots.Manager.Stopped.{EndsWithKills, set_up_honeypots_kills}

abbrev world : World
world = record {
  construct = λ name port. ok tt;
  run_server = λ name port auto. ok true;
  kill_raises = λ name. false;
  waits = λ strategy. ok tt;
  interfaces = ok (codes "eth0 lo");
  addresses = λ name. ok tt;
  sniffer_alive = true;
}

abbrev options_for : Text → Options
options_for setup = record {
  list = false;
  kill = false;
  chameleon = false;
  test = false;
  auto = false;
  sniffer = true;
  iptables = false;
  setup = setup;
  config = codes "config.json";
  termination_strategy = codes "input";
}

abbrev start : State
start = record { port = text []; port_arg = text []; honeypots = []; events = [] }

abbrev all_options : Options
all_options = options_for (codes "all")

abbrev started : State
started = after_runs world false services start

set_up_honeypots_kills_example :
    EndsWithKills world all_options started.honeypots
      (set_up_honeypots world all_options false start)
set_up_honeypots_kills_example =
    set_up_honeypots_kills world all_options false start started (inl refl) refl (
      unfold start_asked bytes_eq in
      start_all_servers_runs world all_options refl false start (λ name. refl) (λ name. refl))

abbrev config : Config
config = record {
  logs = some (codes "db_sqlite");
  honeypots = some (hard (codes "ssh" ∷ []));
  sniffer_interface = none;
}
