-- ===== src/Session.antt =====
-- A handler of a connection: it reads and writes the state of the protocol object, may raise, and
-- leaves a trace of what the outside sees. What was done before an exception stays done.
pub mod Feed
pub mod Entries
use honeypots.Prelude.{◌≡◌, refl, Bool, true, false, ◌||◌, List, [], ◌∷◌, ◌++◌, if◌then◌else◌}
use honeypots.Python.Bytes.{Bytes}
use honeypots.Python.Value.{Fields}
use honeypots.Python.Result.{Exn, Result, ok, raised}

-- An entry handed to the logger, bytes written to the peer, `loseConnection`, a line of the error
-- log.
pub data Effect : Type 0 where
  logged : Fields → Effect
  sent : Bytes → Effect
  closed : Effect
  debugged : Effect

abbrev pub Outcome : Type 0 → Type 0 → Type 0
Outcome S A = Result A × S × List Effect

abbrev pub Handler : Type 0 → Type 0 → Type 0
Handler S A = S → Outcome S A

abbrev pub prepend : {S A : Type 0} → List Effect → Outcome S A → Outcome S A
prepend o (r, s, o') = (r, s, o ++ o')

abbrev pub continue : {S A B : Type 0} → Outcome S A → (A → Handler S B) → Outcome S B
continue (ok a, s, o) f = prepend o (f a s)
continue (raised e, s, o) f = (raised e, s, o)

infixl 10 ◌>>=◌ ◌>>◌
abbrev pub ◌>>=◌ : {S A B : Type 0} → Handler S A → (A → Handler S B) → Handler S B
◌>>=◌ m f s = continue (m s) f

abbrev pub ◌>>◌ : {S A B : Type 0} → Handler S A → Handler S B → Handler S B
m >> n = m >>= λ _. n

abbrev pub pure : {S A : Type 0} → A → Handler S A
pure a s = (ok a, s, [])

abbrev pub raise : {S A : Type 0} → Exn → Handler S A
raise e s = (raised e, s, [])

abbrev pub lift : {S A : Type 0} → Result A → Handler S A
lift r s = (r, s, [])

abbrev pub gets : {S A : Type 0} → (S → A) → Handler S A
gets f s = (ok (f s), s, [])

abbrev pub modify : {S : Type 0} → (S → S) → Handler S (Unit {0})
modify f s = (ok tt, f s, [])

abbrev pub emit : {S : Type 0} → Effect → Handler S (Unit {0})
emit e s = (ok tt, s, e ∷ [])

-- `self.transport.write(data)` and `self.transport.loseConnection()`
abbrev pub write : {S : Type 0} → Bytes → Handler S (Unit {0})
write data_ = emit (sent data_)

abbrev pub lose_connection : {S : Type 0} → Handler S (Unit {0})
lose_connection = emit closed

abbrev pub skip : {S : Type 0} → Handler S (Unit {0})
skip = pure tt

-- `except ... as error:` for the exceptions that `catches` holds of
abbrev pub handle : {S A : Type 0} → (Exn → Bool) → (Exn → Handler S A) → Outcome S A → Outcome S A
handle catches recover (ok a, s, o) = (ok a, s, o)
handle catches recover (raised e, s, o) =
    if catches e then prepend o (recover e s) else (raised e, s, o)

abbrev pub try_except :
    {S A : Type 0} → Handler S A → (Exn → Bool) → (Exn → Handler S A) → Handler S A
try_except m catches recover s = handle catches recover (m s)

-- `with suppress(Exception):`
abbrev pub suppress : {S : Type 0} → Handler S (Unit {0}) → Handler S (Unit {0})
suppress m = try_except m (λ _. true) (λ _. skip)

-- What happens at the chunks of a connection, one after the other. An exception that leaves the
-- handler drops the connection.
unfoldable pub feed :
    {S : Type 0} → (Bytes → Handler S (Unit {0})) → List Bytes → Handler S (Unit {0})
feed h [] = skip
feed h (c ∷ cs) = do h c; feed h cs

-- the entries among the effects of a handler
abbrev pub entries : List Effect → List Fields
entries [] = []
entries (logged e ∷ o) = e ∷ entries o
entries (_ ∷ o) = entries o
