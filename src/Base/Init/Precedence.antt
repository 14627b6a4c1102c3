-- ===== src/Base/Init/Precedence.antt =====
-- An argument comes before the configuration, and the configuration before the default.
use honeypots.Prelude.{
  ℕ, suc, ◌≡◌, ◌∙◌, refl, Bool, true, false, Option, none, some, [], ◌∷◌, arith, Bool-cases, inl,
  inr,
}
use honeypots.Python.Bytes.{Text, codes, bytes_eq}
use honeypots.Python.Number.{parse_int}
use honeypots.Python.Result.{ok, raised, Exn}
use honeypots.Python.Value.{Value, Fields, text, int, get, end, field}
use honeypots.Base.Process.{State, World, kill_server, start_server, take_port, run_process}
use honeypots.Base.Init.{
  Attributes, Settings, Defaults, set_local_vars, truthy, or_value, to_int, port_argument, setting,
  init, fresh, set_attribute,
}

set_local_vars_keeps :
    (d : Fields) (a : Attributes)
    → a.auto_disabled ≡ true
    → get d (codes "auto_disabled") ≡ none
    → (set_local_vars d a).auto_disabled ≡ true
unfolding set_local_vars get
set_local_vars_keeps end a h g = h
set_local_vars_keeps (field k v d) a h g =
    set_local_vars_keeps d (set_attribute k v a) (ground (arith, h, g)) (ground (arith, g))

set_local_vars_port :
    (d : Fields) (a : Attributes) (v : Value)
    → get d (codes "port") ≡ some v
    → get d (codes "auto_disabled") ≡ none
    → (set_local_vars d a).auto_disabled ≡ true
unfolding set_local_vars get
set_local_vars_port end a v h g = ground (arith, h)
set_local_vars_port (field k w d) a v h g = elim (Bool-cases (bytes_eq k (codes "port"))) [
  | inl e ↦ set_local_vars_keeps d (set_attribute k w a) (rw e refl) (ground (arith, g))
  | inr e ↦ set_local_vars_port d (set_attribute k w a) v (ground (arith, e, h)) (ground (arith, g))
]

take_port_kept :
    (w : World) (auto : Bool) (s : State)
    → s.auto_disabled ≡ true
    → take_port w auto s ≡ (w.port_closes, s, [])
unfolding take_port
take_port_kept w true s h = rw h refl
take_port_kept w false s h = refl

start_server_port : (w : World) (s : State) → (start_server w s).1.server.port ≡ s.server.port
unfolding start_server
start_server_port w s = ground arith

-- A port that the configuration names is not replaced by a random one, unless the configuration has a
-- key `auto_disabled` too: whatever the system answers, and also where the server is started with
-- `auto`, it has the same port behind `run_server`.
pub configured_port_kept :
    (w : World) (auto : Bool) (s : State) (d : Fields) (v : Value)
    → get d (codes "port") ≡ some v
    → get d (codes "auto_disabled") ≡ none
    → s.auto_disabled ≡ (set_local_vars d fresh).auto_disabled
    → (run_process w auto s).1.server.port ≡ s.server.port
unfolding run_process kill_server
configured_port_kept w auto s d v h g e =
    ground (
      arith,
      take_port_kept w auto s (e ∙ set_local_vars_port d fresh v h g),
      start_server_port w s,
    )

-- The arguments win over the configuration: a port other than 0, a name and a password that are not
-- empty are the settings of the server, whatever the configuration says.
pub init_arguments :
    (c : Defaults) (env : Text) (config : Option Fields) (kwargs : Fields)
    → (n x y : ℕ) (u p : Text) → get kwargs (codes "port") ≡ some (int (suc n))
    → get kwargs (codes "username") ≡ some (text (x ∷ u))
    → get kwargs (codes "password") ≡ some (text (y ∷ p))
    → (s : Settings) × (init c env config kwargs ≡ ok s)
      × (s.port ≡ int (suc n))
      × (s.username ≡ text (x ∷ u))
      × (s.password ≡ text (y ∷ p))
unfolding init port_argument to_int truthy or_value setting
init_arguments c env config kwargs n x y u p g h k = rw (g, h, k) (_, refl, refl, refl, refl)

-- A port that is a text and no number, as the command line may give it, raises a `ValueError`: there
-- is no server, whatever the configuration says.
pub init_bad_port :
    (c : Defaults) (env : Text) (config : Option Fields) (kwargs : Fields) (x : ℕ) (t : Text)
    → get kwargs (codes "port") ≡ some (text (x ∷ t))
    → parse_int (x ∷ t) ≡ none
    → init c env config kwargs ≡ raised Exn.value_error
unfolding init port_argument to_int truthy
init_bad_port c env config kwargs x t h p = ground (arith, h, p)
