-- ===== src/Python/Result.antt =====
-- Code that may raise: the exceptions that the servers meet, and the value or the exception.
use honeypots.Prelude.{ℕ, ◌≡◌, refl, ◌⊎◌, inl, inr, Option, none, some, List, get_elem?}

pub data Exn : Type 0 where
  index_error struct_error unicode_error value_error type_error key_error attribute_error : Exn
  connection_reset eof_error pop3_error not_implemented unauthorized authorization_error
        timeout_error name_error permission_error :
      Exn

pub data Result {ℓ} (A : Type ℓ) : Type ℓ where
  ok : A → Result A
  raised : Exn → Result A

infixl 10 ◌>>=◌
abbrev pub ◌>>=◌ {ℓ κ} : {A : Type ℓ} {B : Type κ} → Result A → (A → Result B) → Result B
ok a >>= f = f a
raised e >>= f = raised e

-- The value, or the default where `with suppress` swallowed the exception.
abbrev pub result_or {ℓ} : {A : Type ℓ} → A → Result A → A
result_or d (ok a) = a
result_or d (raised e) = d

abbrev pub of_option {ℓ} : {A : Type ℓ} → Exn → Option A → Result A
of_option e none = raised e
of_option e (some a) = ok a

-- `xs[i]` at an index that is not negative
abbrev pub index {ℓ} : {A : Type ℓ} → List A → ℕ → Result A
index xs i = of_option index_error (get_elem? xs i)

-- To split on a computed result and keep the equation.
pub Result-cases {ℓ} :
    {A : Type ℓ} (r : Result A) → ((a : A) × (r ≡ ok a)) ⊎ ((e : Exn) × (r ≡ raised e))
Result-cases (ok a) = inl (a, refl)
Result-cases (raised e) = inr (e, refl)
