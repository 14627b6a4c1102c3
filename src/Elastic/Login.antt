-- ===== src/Elastic/Login.antt =====
-- What the Authorization header of a client leaves in the log.
use honeypots.Prelude.{
  ◌≡◌, ◌∙◌, refl, sym, ap, Bool, true, false, some, [], ◌∷◌, ◌++◌, All, All-append, append_assoc,
  arith, Bool-cases, inl, inr, if◌then◌else◌,
}
use honeypots.Python.Bytes.{Text, codes, bytes_eq, split}
use honeypots.Python.Dict.{bytes_eq_iff}
use honeypots.Python.Utf8.{encode}
use honeypots.Python.Utf8.RoundTrip.{IsScalar, IsByte, encode-IsByte, decode-encode}
use honeypots.Python.Base64.{b64encode}
use honeypots.Python.Base64.RoundTrip.{b64decode-b64encode, b64encode-Lacks}
use honeypots.Python.Result.{Result, ok, raised, Exn}
use honeypots.Python.Split.{Lacks, split-append, split_last, split_parts}
use honeypots.Base.{Server, Peer, login_is_correct, status_of}
use honeypots.Base.Login.{login_is_correct_iff}
use honeypots.Elastic.{
  Request, Outcome, ◌then◌, with_, auth_key, basic_credentials, log_login, refuse, bound,
  send_auth_error, security_error, answer_path, do_get,
}

-- A name or a password that the header can carry: characters, none of them a colon.
abbrev pub IsCarried : Text → Type 0
IsCarried t = All IsScalar t × Lacks 58 t

abbrev basic : Text → Text → Text
basic u p = u ++ codes ":" ++ p

basic-scalars : (u p : Text) → IsCarried u → IsCarried p → All IsScalar (basic u p)
basic-scalars u p g h =
    All-append IsScalar (u ++ codes ":") p (All-append IsScalar u (codes ":") g.0 (omega arith)) h.0

split-basic : (u p : Text) → IsCarried u → IsCarried p → split (codes ":") (basic u p) ≡ u ∷ p ∷ []
split-basic u p g h =
    ap (split (codes ":")) (append_assoc u (codes ":") p)
    ∙ split-append 58 [] u p g.1
    ∙ ap (◌∷◌ u) (split_last 58 [] p h.1)

split_header :
    (k : Text) → Lacks 32 k → split (codes " ") (codes "Basic " ++ k) ≡ codes "Basic" ∷ k ∷ []
split_header k h =
    split-append 32 [] (codes "Basic") k (omega arith)
    ∙ ap (◌∷◌ (codes "Basic")) (split_last 32 [] k h)

-- The header of a client that sends a name and a password.
abbrev pub basic_header : Text → Text → Text
basic_header u p = codes "Basic " ++ auth_key u p

basic_credentials-header :
    (u p : Text) → IsCarried u → IsCarried p → basic_credentials (basic_header u p) ≡ ok (u, p)
unfolding basic_credentials auth_key
basic_credentials-header u p g h =
    let scalars : All IsScalar (basic u p) = basic-scalars u p g h in
    let are_bytes : All IsByte (encode (basic u p)) = encode-IsByte (basic u p) scalars in
    rw
      (split_header (b64encode (encode (basic u p)))
        (b64encode-Lacks (encode (basic u p)) are_bytes))
      (rw (b64decode-b64encode (encode (basic u p)) are_bytes)
        (rw (decode-encode (basic u p) scalars) (rw (split-basic u p g h) refl)))

-- a name and a password behind whose first colon anything follows
split_colons :
    (u p rest : Text)
    → IsCarried u
    → IsCarried p
    → split (codes ":") (basic u (basic p rest)) ≡ u ∷ p ∷ split (codes ":") rest
split_colons u p rest g h =
    ap (split (codes ":")) (append_assoc u (codes ":") (basic p rest))
    ∙ split-append 58 [] u (basic p rest) g.1
    ∙ ap (λ l. u ∷ split (codes ":") l) (append_assoc p (codes ":") rest)
    ∙ ap (◌∷◌ u) (split-append 58 [] p rest h.1)

basic_credentials_colon :
    (u p rest : Text)
    → IsCarried u
    → IsCarried p
    → All IsScalar rest
    → basic_credentials (basic_header u (basic p rest)) ≡ raised Exn.value_error
unfolding basic_credentials auth_key
basic_credentials_colon u p rest g h k =
    let t = basic u (basic p rest) in
    let scalars : All IsScalar t =
      All-append IsScalar (u ++ codes ":") (basic p rest)
        (All-append IsScalar u (codes ":") g.0 (omega arith))
        (All-append IsScalar (p ++ codes ":") rest
          (All-append IsScalar p (codes ":") h.0 (omega arith)) k) in
    let are_bytes : All IsByte (encode t) = encode-IsByte t scalars in
    let (x, (xs, parts)) = split_parts (codes ":") rest in
    rw (split_header (b64encode (encode t)) (b64encode-Lacks (encode t) are_bytes)) (
      rw (b64decode-b64encode (encode t) are_bytes)
        (rw (decode-encode t scalars) (rw (split_colons u p rest g h) (rw parts refl))))

-- The first thing that is done, and something behind it.
abbrev pub BeginsWith : Outcome → Outcome → Type 0
BeginsWith first all = (rest : Outcome) × (all ≡ (first then rest))

same_pair :
    (u p v w : Text) → ◌≡◌ {A = Result (Text × Text)} (ok (u, p)) (ok (v, w)) → (u ≡ v) × (p ≡ w)
same_pair u p v w e = ground (arith, e)

same_bool : (a b : Bool) → (a ≡ true → b ≡ true) → (b ≡ true → a ≡ true) → a ≡ b
same_bool true b f g = sym (f refl)
same_bool false true f g = g refl
same_bool false false f g = refl

module _ (q : Server) (peer : Peer) where
  module _ (r : Request) (u p : Text) (sent : r.authorization ≡ some (basic_header u p))
      (g : IsCarried u) (h : IsCarried p) (gq : IsCarried q.username)
      (hq : IsCarried q.password) where
    same_login :
        basic_header u p ≡ basic_header q.username q.password → (u ≡ q.username) × (p ≡ q.password)
    same_login e = same_pair u p q.username q.password (
        sym (basic_credentials-header u p g h)
        ∙ ap basic_credentials e
        ∙ basic_credentials-header q.username q.password gq hq)

    key_iff_login :
        bytes_eq (basic_header u p) (basic_header q.username q.password) ≡ login_is_correct q u p
    key_iff_login =
        same_bool (bytes_eq (basic_header u p) (basic_header q.username q.password))
          (login_is_correct q u p)
          (λ e. (login_is_correct_iff q u p).1 (
            same_login
              ((bytes_eq_iff (basic_header u p) (basic_header q.username q.password)).0 e)))
          (λ e.
            let (a, b) = (login_is_correct_iff q u p).0 e in
            (bytes_eq_iff (basic_header u p) (basic_header q.username q.password)).1
              (rw (a, b) refl))

    answer_right :
        login_is_correct q u p ≡ true
        → do_get q peer r ≡ (
            log_login q peer (codes "success") u p
            then with_ (bound r.path_of) (answer_path q peer r))
    unfolding do_get
    answer_right e =
        let (a, b) = (login_is_correct_iff q u p).0 e in
        rw (sent, do_get) (rw (key_iff_login ∙ e) (rw (a, b) refl))

    answer_wrong :
        login_is_correct q u p ≡ false
        → do_get q peer r ≡ (
            log_login q peer (codes "failed") u p
            then send_auth_error q peer r
                (security_error (codes "missing authentication credentials for REST request [/]"))
                401)
    unfolding do_get refuse
    answer_wrong e =
        rw (sent, do_get)
          (rw (key_iff_login ∙ e) (rw (basic_credentials-header u p g h, refuse) refl))

    -- Every attempt to log in is logged first with the name and the password that the client sent,
    -- as a success exactly if they are the configured ones, provided that no name and no password has
    -- a colon in it.
    pub do_get-login :
        BeginsWith (log_login q peer (status_of (login_is_correct q u p)) u p) (do_get q peer r)
    do_get-login = elim (Bool-cases (login_is_correct q u p)) [
      | inl e ↦ (with_ (bound r.path_of) (answer_path q peer r), rw e (answer_right e))
      | inr e ↦ (
        send_auth_error q peer r
            (security_error (codes "missing authentication credentials for REST request [/]")) 401,
        rw e (answer_wrong e),
      )
    ]

  -- A header that is not the right one, with a password that has a colon in it, one or more, which Basic
  -- authentication allows, raises in front of the entry: nothing is logged of that login, and nothing
  -- is answered. `p` is the password up to its first colon.
  pub do_get_colon :
      (r : Request) (u p rest : Text)
      → r.authorization ≡ some (basic_header u (p ++ codes ":" ++ rest))
      → IsCarried u
      → IsCarried p
      → All IsScalar rest
      → bytes_eq (basic_header u (p ++ codes ":" ++ rest)) (basic_header q.username q.password)
        ≡ false
      → do_get q peer r ≡ (raised Exn.value_error, [])
  unfolding do_get refuse
  do_get_colon r u p rest sent g h k differs =
      rw (sent, do_get) (rw differs (rw (basic_credentials_colon u p rest g h k, refuse) refl))
