-- ===== src/Helper/Emit/Trail.antt =====
-- The logins of a server and the table of the database, from `check_login` to the rows.
use honeypots.Prelude.{
  ℕ, suc, ◌≡◌, ◌⊎◌, ◌↔◌, inl, inr, Bool, false, arith, ◌∙◌, ap, sym, refl, true, none, List, [],
  ◌∷◌, ◌++◌, map, All, append_assoc, append-nil,
}
use honeypots.Python.Bytes.{Text, codes}
use honeypots.Python.Value.{Fields, dict, text, int, null}
use honeypots.Session.{Handler, ◌>>=◌, entries, skip}
use honeypots.Base.{Server, check_login, login_is_correct, status_of}
use honeypots.Base.Login.{login_entry, check_login_lem, login_is_correct_iff}
use honeypots.Helper.Filter.{Record, Texts}
use honeypots.Helper.Sqlite.{Row}
use honeypots.Helper.Sqlite.Rows.{login_row, IsStorable}
use honeypots.Helper.Emit.{CustomHandler, State, emit}
use honeypots.Helper.Emit.Database.{emit-login}

-- What a client does, as an operator wants to see it.
pub record Attempt : Type 0 where
  pub username : Text
  pub password : Text
  pub ip : Text
  pub port : ℕ

abbrev pub Storable : Server → Attempt → Type 0
Storable q a = IsStorable q a.username a.password a.ip a.port

abbrev row_for : Server → Attempt → Row
row_for q a = login_row q a.username a.password a.ip a.port

abbrev entry_for : Server → Attempt → Fields
entry_for q a = login_entry q a.username a.password a.ip a.port

-- The attempts at a server, one after the other.
unfoldable pub check_each : {S : Type 0} → Server → List Attempt → Handler S (Unit {0})
check_each q [] = skip
check_each q (a ∷ attempts) = do
  _ ← check_login q a.username a.password a.ip a.port
  check_each q attempts

entries-check_each :
    {S : Type 0} (q : Server) (attempts : List Attempt) (c : S)
    → entries (check_each q attempts c).2 ≡ map (entry_for q) attempts
unfolding check_each
entries-check_each q [] c = refl
entries-check_each q (a ∷ attempts) c =
    rw (check_login_lem q a.username a.password a.ip a.port c)
      (ap (λ es. entry_for q a ∷ es) (entries-check_each q attempts c))

-- The row of an attempt, in the order of the columns.
abbrev pub IsRow : Server → Attempt → Row → Type 0
IsRow q a row =
    (status : Text) × (row
      ≡ text q.name
        ∷ text (codes "login")
        ∷ text status
        ∷ text a.ip
        ∷ int a.port
        ∷ text q.ip
        ∷ int q.port
        ∷ text a.username
        ∷ text a.password
        ∷ null
        ∷ null
        ∷ [])
    × ((status ≡ codes "success") ↔ ((a.username ≡ q.username) × (a.password ≡ q.password)))
    × ((status ≡ codes "success") ⊎ (status ≡ codes "failed"))

-- The abstract table: one row for each attempt, in their order.
abbrev pub AreRows : Server → List Attempt → List Row → Type 0
AreRows q [] [] = Unit {0}
AreRows q (a ∷ attempts) (row ∷ rows) = IsRow q a row × AreRows q attempts rows
AreRows q _ _ = ⊥

status_of_iff : (b : Bool) → (status_of b ≡ codes "success") ↔ (b ≡ true)
status_of_iff true = ((λ e. refl), (λ e. refl))
status_of_iff false = ((λ e. ground (arith, e)), (λ e. ground (arith, e)))

status_of_either : (b : Bool) → (status_of b ≡ codes "success") ⊎ (status_of b ≡ codes "failed")
status_of_either true = inl refl
status_of_either false = inr refl

row_for-IsRow : (q : Server) (a : Attempt) → IsRow q a (row_for q a)
row_for-IsRow q a =
    let b = login_is_correct q a.username a.password in
    let (to, from) = login_is_correct_iff q a.username a.password in
    (
      status_of b,
      refl,
      ((λ e. to ((status_of_iff b).0 e)), (λ e. (status_of_iff b).1 (from e))),
      status_of_either b,
    )

row_for-AreRows :
    (q : Server) (attempts : List Attempt) → AreRows q attempts (map (row_for q) attempts)
row_for-AreRows q [] = tt
row_for-AreRows q (a ∷ attempts) = (row_for-IsRow q a, row_for-AreRows q attempts)

-- `clock` gives the time at each entry.
module _ (t : Texts) (record_repr : Record → Text) (clock : ℕ → Text) (h : CustomHandler) where
  -- The logger `name` hands the entries to its handler, one after the other.
  unfoldable pub emit_each : Text → ℕ → List Fields → State → State
  emit_each name n [] s = s
  emit_each name n (e ∷ es) s =
      emit_each name (suc n) es (
        emit t record_repr (clock n) h
          (record s { record_ = record { name = name; msg = dict e } }))

  abbrev Stores : Server → Text → ℕ → List Attempt → State → Type 0
  Stores q name n attempts s =
      ((emit_each name n (map (entry_for q) attempts) s).rows ≡ s.rows ++ map (row_for q) attempts)
      × ((emit_each name n (map (entry_for q) attempts) s).lines ≡ s.lines)

  module _ (q : Server) (l : h.logs ≡ codes "db_sqlite") (f : h.custom_filter ≡ none)
      (b : h.has_db ≡ true) where
    emit_each-attempts :
        (name : Text) (n : ℕ) (attempts : List Attempt) (s : State)
        → All (Storable q) attempts
        → s.executes ≡ true
        → Stores q name n attempts s
    unfolding emit_each
    emit_each-attempts name n [] s p x = (sym (append-nil s.rows), refl)
    emit_each-attempts name n (a ∷ attempts) s p x =
        let s' = record s { record_ = record { name = name; msg = dict (entry_for q a) } } in
        let (rows, lines) =
          emit_each-attempts name (suc n) attempts
            (record s' { rows = s'.rows ++ row_for q a ∷ [] }) p.1 x in
        let step = ap (emit_each name (suc n) (map (entry_for q) attempts)) (
          emit-login t record_repr (clock n) h s' q a.username a.password a.ip a.port l f b refl p.0
            x) in
        (
          ap (λ x. x.rows) step
              ∙ rows
              ∙ append_assoc s.rows (row_for q a ∷ []) (map (row_for q) attempts),
          ap (λ x. x.lines) step ∙ lines,
        )

  -- The table of the database is a faithful trail of the attempts to log in: whatever the attempts at a
  -- server, one after the other, and at whatever times, the rows that are added are exactly one for
  -- each attempt, in their order, with the name, the password and the address of each and the status
  -- `success` exactly if name and password are the configured ones, and nothing is written to the
  -- terminal. The handler logs to the database only, without filters; the database takes statements;
  -- the ports have two bytes and no text has a surrogate.
  pub emit_each-check_each :
      {S : Type 0} (q : Server) (name : Text) (attempts : List Attempt) (c : S) (s : State)
      → h.logs ≡ codes "db_sqlite"
      → h.custom_filter ≡ none
      → h.has_db ≡ true
      → s.executes ≡ true
      → All (Storable q) attempts
      → (new : List Row) × (AreRows q attempts new)
        × ((emit_each name 0 (entries (check_each q attempts c).2) s).rows ≡ s.rows ++ new)
        × ((emit_each name 0 (entries (check_each q attempts c).2) s).lines ≡ s.lines)
  emit_each-check_each q name attempts c s l f b x p =
      let (rows, lines) = emit_each-attempts q l f b name 0 attempts s p x in
      (
        map (row_for q) attempts,
        row_for-AreRows q attempts,
        rw (entries-check_each q attempts c) rows,
        rw (entries-check_each q attempts c) lines,
      )
