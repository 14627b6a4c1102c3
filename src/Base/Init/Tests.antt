-- ===== src/Base/Init/Tests.antt =====
-- Arguments and configurations to run the theorems on.
use honeypots.Prelude.{◌≡◌, refl, true, none, [], ◌∷◌}
use honeypots.Python.Bytes.{codes, bytes_eq}
use honeypots.Python.Result.{ok}
use honeypots.Python.Value.{Fields, fields, word, item, int, get}
use honeypots.Base.Samples.{server}
use honeypots.Base.Process.{State, World, run_process}
use honeypots.Base.Init.{Defaults, set_local_vars}
use honeypots.Base.Init.Precedence.{configured_port_kept}

abbrev defaults : Defaults
defaults = record { port = 22; username = codes "test"; password = codes "test" }

abbrev config : Fields
config = fields (item "port" (int 2222) ∷ word "username" "admin" ∷ [])

abbrev arguments : Fields
arguments = fields (item "port" (int 8022) ∷ word "username" "root" ∷ word "password" "toor" ∷ [])

abbrev world : World
world = record {
  free_port = 40000;
  port_closes = ok true;
  service_starts = true;
  stays_up = true;
  ends_in_time = true;
}

abbrev fixed : State
fixed = record { server = server; auto_disabled = true; child = none }

configured_port_kept_example : (run_process world true fixed).1.server.port ≡ 389
configured_port_kept_example =
    configured_port_kept world true fixed config (int 2222) (unfold get bytes_eq in refl)
      (unfold get bytes_eq in refl) (unfold set_local_vars bytes_eq in refl)
