-- ===== src/Base/Login.antt =====
-- What `check_login` returns and what it logs.
use honeypots.Prelude.{ℕ, true, some, [], ◌∷◌, ◌≡◌, ◌↔◌, refl, arith, Bool-cases, inl, inr}
use honeypots.Python.Bytes.{Text, codes, bytes_eq}
use honeypots.Python.Dict.{bytes_eq_iff}
use honeypots.Python.Value.{text, int, get, update, fields, Fields, put}
use honeypots.Python.Result.{ok}
use honeypots.Session.{logged}
use honeypots.Base.{
  Server, log, login_is_correct, login_items, check_login, server_items, status_of,
}

pub login_is_correct_iff :
    (q : Server) (u p : Text)
    → (login_is_correct q u p ≡ true) ↔ ((u ≡ q.username) × (p ≡ q.password))
unfolding login_is_correct
login_is_correct_iff q u p = ground (arith, bytes_eq_iff u q.username, bytes_eq_iff p q.password)

-- the entry that a login leaves
abbrev pub login_entry : Server → Text → Text → Text → ℕ → Fields
login_entry q u p ip port =
    update (fields (login_items (status_of (login_is_correct q u p)) u p ip port)) (server_items q)

pub check_login_lem :
    {S : Type 0} (q : Server) (u p ip : Text) (port : ℕ) (s : S)
    → check_login q u p ip port s
      ≡ (ok (login_is_correct q u p), s, logged (login_entry q u p ip port) ∷ [])
unfolding check_login log bytes_eq
check_login_lem q u p ip port s = elim (Bool-cases (login_is_correct q u p)) [
  | inl e ↦ rw e
  | inr e ↦ rw e
]

-- What `check_login` leaves: exactly one entry is logged, which holds the name and the password that
-- were given, the address of the peer and that of the server; its status is `success`, and the
-- result is true, exactly when the name and the password are the configured ones.
pub check_login_recorded :
    {S : Type 0} (q : Server) (u p ip : Text) (port : ℕ) (s : S)
    → (entry : Fields) × (check_login q u p ip port s
        ≡ (ok (login_is_correct q u p), s, logged entry ∷ []))
      × ((login_is_correct q u p ≡ true) ↔ ((u ≡ q.username) × (p ≡ q.password)))
      × (get entry (codes "status") ≡ some (text (status_of (login_is_correct q u p))))
      × (get entry (codes "username") ≡ some (text u))
      × (get entry (codes "password") ≡ some (text p))
      × (get entry (codes "src_ip") ≡ some (text ip))
      × (get entry (codes "src_port") ≡ some (int port))
      × (get entry (codes "server") ≡ some (text q.name))
      × (get entry (codes "dest_ip") ≡ some (text q.ip))
      × (get entry (codes "dest_port") ≡ some (int q.port))
unfolding get update put bytes_eq
check_login_recorded q u p ip port s = (
  login_entry q u p ip port,
  check_login_lem q u p ip port s,
  login_is_correct_iff q u p,
  refl,
  refl,
  refl,
  refl,
  refl,
  refl,
  refl,
  refl,
)
