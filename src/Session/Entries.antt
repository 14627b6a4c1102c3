-- ===== src/Session/Entries.antt =====
-- What holds of every entry that a handler logs, part by part.
use honeypots.Prelude.{List, [], ◌∷◌, ◌++◌, All, true}
use honeypots.Python.Value.{Fields}
use honeypots.Python.Result.{ok, raised}
use honeypots.Session.{
  Effect, logged, sent, closed, debugged, entries, Outcome, Handler, ◌>>=◌, continue, suppress,
  handle, skip,
}

entries-append :
    (P : Fields → Type 0) (a b : List Effect)
    → All P (entries a)
    → All P (entries b)
    → All P (entries (a ++ b))
entries-append P [] b p q = q
entries-append P (logged e ∷ a) b p q = (p.0, entries-append P a b p.1 q)
entries-append P (sent x ∷ a) b p q = entries-append P a b p q
entries-append P (closed ∷ a) b p q = entries-append P a b p q
entries-append P (debugged ∷ a) b p q = entries-append P a b p q

-- Every entry that the handler logs has the property, in whatever state it begins.
abbrev pub Logs : {S A : Type 0} → (Fields → Type 0) → Handler S A → Type 0
Logs {S} P m = (s : S) → All P (entries (m s).2)

module _ {S : Type 0} (P : Fields → Type 0) where
  continue-Logs :
      {A B : Type 0} (r : Outcome S A) (f : A → Handler S B)
      → All P (entries r.2)
      → ((a : A) → Logs P (f a))
      → All P (entries (continue r f).2)
  continue-Logs (ok a, s, o) f p q = entries-append P o ((f a s).2) p (q a s)
  continue-Logs (raised e, s, o) f p q = p

  pub bind-Logs :
      {A B : Type 0} (m : Handler S A) (f : A → Handler S B)
      → Logs P m
      → ((a : A) → Logs P (f a))
      → Logs P (m >>= f)
  bind-Logs m f p q s = continue-Logs (m s) f (p s) q

  handle-Logs :
      (r : Outcome S (Unit {0}))
      → All P (entries r.2)
      → All P (entries (handle (λ e. true) (λ e. skip) r).2)
  handle-Logs (ok a, s, o) p = p
  handle-Logs (raised e, s, o) p = entries-append P o [] p tt

  pub suppress-Logs : (m : Handler S (Unit {0})) → Logs P m → Logs P (suppress m)
  suppress-Logs m p s = handle-Logs (m s) (p s)

  -- where the result of the first handler is dropped
  pub after-Logs :
      {A B : Type 0} (m : Handler S A) (n : Handler S B)
      → Logs P m
      → Logs P n
      → Logs P (m >>= λ _. n)
  after-Logs m n p q = bind-Logs m (λ _. n) p (λ _. q)
