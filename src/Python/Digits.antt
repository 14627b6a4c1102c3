-- ===== src/Python/Digits.antt =====
-- The decimal digits that `str` gives for a number.
use honeypots.Prelude.{
  ℕ, zero, suc, ◌+◌, ◌/◌, ◌%◌, ◌≤◌, ◌<◌, ◌≡◌, refl, arith, Bool-cases, inl, inr, [], ◌∷◌, All, ltb,
}
use honeypots.Python.Bytes.{Text, digits_onto, str}

abbrev pub IsDigits : Text → Type 0
IsDigits = All (λ c. (48 ≤ c) × (c < 58))

digits_onto-IsDigits :
    (fuel n : ℕ) (rest : Text) → IsDigits rest → IsDigits (digits_onto fuel n rest)
unfolding digits_onto
digits_onto-IsDigits zero n rest h = h
digits_onto-IsDigits (suc fuel) n rest h = elim (Bool-cases (ltb n 10)) [
  | inl e ↦ rw e ((ground (arith, e), ground (arith, e)), h)
  | inr e ↦
      rw e
        (digits_onto-IsDigits fuel (n / 10) ((48 + n % 10) ∷ rest) ((omega arith, omega arith), h))
]

pub str-IsDigits : (n : ℕ) → IsDigits (str n)
unfolding str
str-IsDigits n = digits_onto-IsDigits (n + 1) n [] tt

-- the first digit: below ten it is the number itself
abbrev pub Leading : ℕ → Text → Type 0
Leading n s = (d : ℕ) × ((rest : Text) × ((s ≡ (48 + d) ∷ rest) × ((d < 10) × (n < 10 → d ≡ n))))

digits_onto-Leading : (fuel n : ℕ) (rest : Text) → n < fuel → Leading n (digits_onto fuel n rest)
unfolding digits_onto
digits_onto-Leading zero n rest h = ground arith
digits_onto-Leading (suc fuel) n rest h = elim (Bool-cases (ltb n 10)) [
  | inl e ↦ (n, (rest, (rw e, (ground (arith, e), λ _. refl))))
  | inr e ↦
      let (d, (r, (p, (b, _)))) =
        digits_onto-Leading fuel (n / 10) ((48 + n % 10) ∷ rest) (ground (arith, e)) in
      (d, (r, (rw e p, (b, λ i. ground (arith, e, i)))))
]

pub str-Leading : (n : ℕ) → Leading n (str n)
unfolding str
str-Leading n = digits_onto-Leading (n + 1) n [] (omega arith)
