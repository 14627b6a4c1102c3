-- ===== src/Helper/Wait/Tests.antt =====
-- A clock whose rounds take a tenth of a second, and a service that comes up at the third look.
use honeypots.Prelude.{ℕ, ◌*◌, ◌≡◌, refl, Bool, true, false, some, ltb, not, arith}
use honeypots.Python.Result.{ok}
use honeypots.Helper.Wait.{service_has_started}
use honeypots.Helper.Wait.Ends.{Answers, service_has_started_ends, service_has_started_live}

abbrev clock : ℕ → ℕ
clock i = i * 100

abbrev up_at_third : ℕ → Bool
up_at_third i = not (ltb i 2)

service_has_started_ends_example : Answers (service_has_started up_at_third clock 51)
service_has_started_ends_example = service_has_started_ends up_at_third clock (λ i. omega arith)

service_has_started_live_example : service_has_started up_at_third clock 60 ≡ some (ok true)
service_has_started_live_example =
    service_has_started_live up_at_third clock (λ i. omega arith) 2 60 refl (omega arith)
      (omega arith)

never_up : service_has_started (λ i. false) clock 51 ≡ some (ok false)
unfolding service_has_started
never_up = refl
