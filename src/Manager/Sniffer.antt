-- ===== src/Manager/Sniffer.antt =====
-- `_set_up_sniffer`, `_check_interfaces` and `_start_sniffer` of the manager.
use honeypots.Prelude.{not, ◌&&◌, Option, none, some, [], ◌∷◌, if◌then◌else◌}
use honeypots.Python.Bytes.{Text, codes, find}
use honeypots.Python.Result.{ok, raised}
use honeypots.Manager.{
  Options, Action, World, ◌>>◌, skip, exit, emit, add_honeypot, iptables_fixed, sniffer_run,
}

module _ (w : World) (o : Options) where
  -- The interface is looked up in the text of all names. Both ways out leave the program with 1.
  unfoldable pub check_interfaces : Text → Action (Unit {0})
  unfolding find
  check_interfaces interface = elim w.interfaces [
    | raised e ↦ exit 1
    | ok names ↦ elim (find interface names) [
      | none ↦ exit 1
      | some i ↦ elim (w.addresses interface) [ raised e ↦ exit 1 | ok x ↦ skip ]
    ]
  ]

  unfoldable pub start_sniffer : Action (Unit {0})
  start_sniffer = do emit sniffer_run; add_honeypot (codes "sniffer") w.sniffer_alive

  -- `sniffer_interface` of the configuration, none or empty where it is missing
  unfoldable pub set_up_sniffer : Option Text → Action (Unit {0})
  unfolding check_interfaces start_sniffer
  set_up_sniffer none = exit 1
  set_up_sniffer (some []) = exit 1
  set_up_sniffer (some (x ∷ name)) = do
    if not o.test && o.sniffer
        then (do check_interfaces (x ∷ name); if o.iptables then emit iptables_fixed else skip)
        else skip
    start_sniffer
