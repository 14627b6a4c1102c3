-- ===== src/Helper/Wait/Ends.antt =====
-- The loop of `wait_for_service` ends, and it finds a service that comes up in time.
use honeypots.Prelude.{
  ℕ, zero, suc, ◌+◌, ◌-◌, ◌*◌, ◌≤◌, ◌<◌, ◌≡◌, ◌∙◌, ◌⊎◌, ap, refl, Bool, true, false, Option, some,
  ltb, arith, Bool-cases, inl, inr,
}
use honeypots.Python.Result.{Result, ok, raised, Exn}
use honeypots.Helper.Wait.{wait_from, wait_for_service, service_has_started}

-- A round takes at least the `sleep` of a tenth of a second.
abbrev pub Sleeps : (ℕ → ℕ) → Type 0
Sleeps clock = (i : ℕ) → clock i + 100 ≤ clock (suc i)

-- the result: it started, or the time was over
abbrev pub Answers : Option (Result Bool) → Type 0
Answers o = (b : Bool) × (o ≡ some (ok b))

module _ (runs : ℕ → Bool) (clock : ℕ → ℕ) (sleeps : Sleeps clock) where
  wait_ends :
      (fuel start i : ℕ)
      → clock i ≤ start + 5000
      → start + 5000 < clock i + fuel * 100
      → (wait_from runs clock 5000 fuel start i ≡ some (ok tt))
        ⊎ (wait_from runs clock 5000 fuel start i ≡ some (raised Exn.timeout_error))
  unfolding wait_from
  wait_ends zero start i a b = ground (arith, a, b)
  wait_ends (suc fuel) start i a b = elim (Bool-cases (runs i)) [
    | inl e ↦ inl (rw (e, wait_from) refl)
    | inr e ↦ elim (Bool-cases (ltb 5000 (clock (suc i) - start))) [
      | inl l ↦ inr (ground (arith, e, l))
      | inr l ↦
          rw (e, l, wait_from)
            (wait_ends fuel start (suc i) (ground (arith, l)) (omega (arith, sleeps i, b)))
    ]
  ]

  -- The wait for a service ends within 51 rounds, with the answer whether the service was seen in
  -- time, provided that each round takes at least the tenth of a second that it sleeps.
  pub service_has_started_ends : Answers (service_has_started runs clock 51)
  unfolding service_has_started wait_for_service
  service_has_started_ends = elim (wait_ends 51 (clock 0) 0 (omega arith) (omega arith)) [
    | inl e ↦ (true, rw (e, service_has_started) refl)
    | inr e ↦ (false, rw (e, service_has_started) refl)
  ]

  clock_mono : (gap i k : ℕ) → i + gap ≡ k → clock i ≤ clock k
  clock_mono zero i k e = ground (arith, ap clock (e' e))
    where
      e' : i + 0 ≡ k → i ≡ k
      e' e = omega (arith, e)
  clock_mono (suc gap) i k e = omega (arith, sleeps i, clock_mono gap (suc i) k (omega (arith, e)))

  wait_finds :
      (k gap fuel i : ℕ)
      → runs k ≡ true
      → clock k ≤ clock 0 + 5000
      → i + gap ≡ k
      → gap < fuel
      → wait_from runs clock 5000 fuel (clock 0) i ≡ some (ok tt)
  unfolding wait_from
  wait_finds k zero (suc fuel) i r c e l =
      let same : i ≡ k = omega (arith, e) in rw (ap runs same ∙ r, wait_from) refl
  wait_finds k (suc gap) (suc fuel) i r c e l = elim (Bool-cases (runs i)) [
    | inl up ↦ rw (up, wait_from) refl
    | inr down ↦
        let before : clock (suc i) ≤ clock k = clock_mono gap (suc i) k (omega (arith, e)) in
        let in_time : ltb 5000 (clock (suc i) - clock 0) ≡ false = ground (arith, before, c) in
        rw (down, in_time, wait_from)
          (wait_finds k gap fuel (suc i) r c (omega (arith, e)) (omega (arith, l)))
  ]
  wait_finds k gap zero i r c e l = absurd (omega (arith, l))

  -- A service that is seen at some round within five seconds has started: the answer is true, however
  -- often it was not seen before.
  pub service_has_started_live :
      (k fuel : ℕ)
      → runs k ≡ true
      → clock k ≤ clock 0 + 5000
      → k < fuel
      → service_has_started runs clock fuel ≡ some (ok true)
  unfolding service_has_started wait_for_service
  service_has_started_live k fuel r c l =
      rw (wait_finds k k fuel 0 r c (omega arith) l, service_has_started) refl
