-- ===== src/Manager/Start.antt =====
-- `_start_server`, `_start_all_servers` and `_start_configured_servers` of the manager.
use honeypots.Prelude.{Bool, true, false, List, [], ◌∷◌, none, some, if◌then◌else◌}
use honeypots.Python.Bytes.{Text, codes, find, split}
use honeypots.Python.Number.{parse_int}
use honeypots.Python.Result.{Exn}
use honeypots.Base.Init.{truthy}
use honeypots.Manager.{
  Options, Action, World, all_servers, is_known, ◌>>=◌, ◌>>◌, pure, skip, raise, lift, gets, modify,
  emit, add_honeypot, try_, run, tested, killed,
}

-- `server_timeout` and `kill_server`: a test that takes too long is only logged.
abbrev test_and_kill : World → Text → Action (Unit {0})
test_and_kill w service = do
  emit (tested service)
  emit (killed service)
  if w.kill_raises service then raise Exn.attribute_error else skip

module _ (w : World) (o : Options) where
  -- the part behind the lookup of the class
  unfoldable pub run_known : Text → Bool → Action (Unit {0})
  run_known service auto = do
    port ← gets (λ s. s.port_arg)
    lift (w.construct service port)
    if o.test then (do test_and_kill w service; add_honeypot service false) else (do
      emit (run service port auto)
      status ← lift (w.run_server service port auto)
      add_honeypot service status)

  unfoldable pub start_server : Text → Bool → Action (Unit {0})
  unfolding is_known run_known
  start_server service auto = if is_known service then run_known service auto else skip

  -- `for service in services: self._start_server(service)`, with `self.auto`
  unfoldable pub start_each : Bool → List Text → Action (Unit {0})
  unfolding start_server
  start_each auto [] = skip
  start_each auto (service ∷ services) = do start_server service auto; start_each auto services

  unfoldable pub start_all_servers : Bool → Action (Unit {0})
  unfolding start_each all_servers
  start_all_servers auto = try_ (start_each auto all_servers)

  -- `service, port = service.split(":")`
  unfoldable pub split_port : Text → Action (Text × Text)
  split_port service = elim (split (codes ":") service) [
    | a ∷ b ∷ [] ↦ pure (a, b)
    | _ ↦ raise Exn.value_error
  ]

  -- `int(port)`, which is kept for the services behind this one
  unfoldable pub start_with_port : Text → Text → Action (Unit {0})
  unfolding start_server
  start_with_port service port = elim (parse_int port) [
    | none ↦ raise Exn.value_error
    | some v ↦ do modify (λ s. record s { port = v; port_arg = v }); start_server service false
  ]

  -- the first branch of the loop's `if`
  unfoldable pub start_on_port : Text → Action (Unit {0})
  unfolding split_port start_with_port
  start_on_port service = do parts ← split_port service; start_with_port parts.0 parts.1

  unfoldable pub start_configured : Text → Action (Unit {0})
  unfolding start_on_port truthy start_server
  start_configured service = elim (find (codes ":") service) [
    | some i ↦ start_on_port service
    | none ↦ do
      port ← gets (λ s. s.port)
      if truthy port
          then start_server service false
          else if o.test
          then skip
          else start_server service true
  ]

  unfoldable pub start_configured_each : List Text → Action (Unit {0})
  unfolding start_configured
  start_configured_each [] = skip
  start_configured_each (service ∷ services) = do
    start_configured service
    start_configured_each services

  unfoldable pub start_configured_servers : Action (Unit {0})
  unfolding start_configured_each
  start_configured_servers = start_configured_each (split (codes ",") o.setup)
