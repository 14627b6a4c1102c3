-- ===== src/Helper/Wait.antt =====
-- `wait_for_service` and `service_has_started` of helper.py. `runs i` is the answer of the i-th
-- `_service_runs`, and `clock i` the time in milliseconds in front of it.
pub mod Ends
mod Tests
use honeypots.Prelude.{ℕ, zero, suc, ◌-◌, Bool, true, false, Option, none, some, ltb}
use honeypots.Python.Result.{Result, ok, raised, Exn}

-- The loop can need any number of rounds, so it runs on fuel: `none` where the fuel is used up.
module _ (runs : ℕ → Bool) (clock : ℕ → ℕ) (timeout : ℕ) where
  unfoldable pub wait_from : ℕ → ℕ → ℕ → Option (Result (Unit {0}))
  wait_from zero start_time i = none
  wait_from (suc fuel) start_time i = elim (runs i) [
    | true ↦ some (ok tt)
    | false ↦ elim (ltb timeout (clock (suc i) - start_time)) [
      | true ↦ some (raised Exn.timeout_error)
      | false ↦ wait_from fuel start_time (suc i)
    ]
  ]

  unfoldable pub wait_for_service : ℕ → Option (Result (Unit {0}))
  unfolding wait_from
  wait_for_service fuel = wait_from fuel (clock 0) 0

-- `try: ... return True` and `except TimeoutError: return False`
abbrev started : Result (Unit {0}) → Result Bool
started (ok x) = ok true
started (raised Exn.timeout_error) = ok false
started (raised e) = raised e

-- with the timeout of five seconds
unfoldable pub service_has_started : (ℕ → Bool) → (ℕ → ℕ) → ℕ → Option (Result Bool)
unfolding wait_for_service
service_has_started runs clock fuel = elim (wait_for_service runs clock 5000 fuel) [
  | none ↦ none
  | some r ↦ some (started r)
]
