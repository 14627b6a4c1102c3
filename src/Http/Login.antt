-- ===== src/Http/Login.antt =====
-- The form of a login.
use honeypots.Prelude.{
  ℕ, Bool, ◌<◌, ◌≡◌, ◌∙◌, inl, inr, refl, ap, true, false, some, List, [], ◌∷◌, ◌++◌, All-append,
  arith, Bool-cases,
}
use honeypots.Python.Bytes.{Bytes, Text, codes, bytes_eq}
use honeypots.Python.Utf8.{decode}
use honeypots.Python.Utf8.RoundTrip.{IsAscii, decode_replace_ascii}
use honeypots.Python.Query.{parse_qsl, field_text}
use honeypots.Python.Query.RoundTrip.{
  IsName, IsSent, IsSafe, quoted_pair, parse_qsl-two, quoted_pair-IsAscii,
}
use honeypots.Python.Value.{Fields, text, int, item, fields, update}
use honeypots.Python.Result.{ok, Result}
use honeypots.Session.{Effect, logged}
use honeypots.Base.{Server, log, server_items}
use honeypots.Base.Login.{login_entry, check_login_lem}
use honeypots.Helper.Request.{Request, client_ip, headers_of, get_headers_and_ip_from_request}
use honeypots.Http.{
  Page, home, Headers, remove_server, is_set, form_of, values_of, value_of, log_connection,
  log_method, mock_server, check_form, takes_login, render_post, respond, render,
}

-- What a browser sends for the form: both fields in UTF-8, where the bytes that `safe` holds of stand
-- for themselves, spaces are plus signs, and the others have percent signs.
abbrev pub login_form : (ℕ → Bool) → Text → Text → Bytes
login_form safe u p =
    quoted_pair safe (codes "username") u ++ (codes "&" ++ quoted_pair safe (codes "password") p)

username_IsName : IsName (codes "username")
username_IsName = (ground arith, unfold field_text in refl)

password_IsName : IsName (codes "password")
password_IsName = (ground arith, unfold field_text in refl)

form_of-login_form :
    (safe : ℕ → Bool) (u p : Text)
    → IsSafe safe
    → IsSent u
    → IsSent p
    → form_of (login_form safe u p) ≡ (codes "username", u) ∷ (codes "password", p) ∷ []
unfolding form_of
form_of-login_form safe u p f g h =
    let ascii : IsAscii (login_form safe u p) =
      All-append (λ c. c < 128) (quoted_pair safe (codes "username") u)
        (codes "&" ++ quoted_pair safe (codes "password") p)
        (quoted_pair-IsAscii safe f (codes "username") u username_IsName g)
        (omega arith, quoted_pair-IsAscii safe f (codes "password") p password_IsName h) in
    ap parse_qsl (decode_replace_ascii (login_form safe u p) ascii)
    ∙ parse_qsl-two safe f (codes "username") u (codes "password") p username_IsName g
        password_IsName h

-- The page, and three entries with the login as the last one.
abbrev pub IsLogin : Fields → Result Page × Headers × List Effect → Type 0
IsLogin entry outcome =
    (connection : Fields) × ((method : Fields) × ((hs : Headers) × (outcome
          ≡ (ok home, hs, logged connection ∷ logged method ∷ logged entry ∷ []))))

module _ (q : Server) (mocking_server : Text) (safe : ℕ → Bool) (f : IsSafe safe) where
  check_form-login :
      (r : Request) (ip u p : Text) (s : Headers)
      → check_form q mocking_server r ip ((codes "username", u) ∷ (codes "password", p) ∷ []) s
        ≡ (ok tt, s, logged (login_entry q u p ip r.client.port) ∷ [])
  unfolding check_form values_of value_of bytes_eq
  check_form-login r ip u p s = rw (check_login_lem q u p ip r.client.port s) refl

  render_post-login :
      (r : Request) (ip u p : Text) (s : Headers)
      → r.content ≡ login_form safe u p
      → takes_login q mocking_server r ≡ true
      → IsSent u
      → IsSent p
      → render_post q mocking_server r ip s
        ≡ (ok tt, s, logged (login_entry q u p ip r.client.port) ∷ [])
  unfolding render_post
  render_post-login r ip u p s c t g h =
      rw (t, render_post)
        (ap (λ l. check_form q mocking_server r ip l s)
            (ap form_of c ∙ form_of-login_form safe u p f g h)
          ∙ check_form-login r ip u p s)

  -- one entry, and nothing else is changed
  abbrev LogsOne : (Headers → Result (Unit {0}) × Headers × List Effect) → Headers → Type 0
  LogsOne m s = (e : Fields) × (m s ≡ (ok tt, s, logged e ∷ []))

  log_connection_one :
      (r : Request) (ip : Text) (headers : Fields) (s : Headers)
      → LogsOne (log_connection q mocking_server r ip headers) s
  unfolding log_connection log
  log_connection_one r ip headers s = (_, refl)

  post_entry : Request → Text → Fields
  post_entry r ip =
      update
        (fields (
          item "action" (text (codes "POST"))
          ∷ item "src_ip" (text ip)
          ∷ item "src_port" (int r.client.port)
          ∷ []))
        (server_items q)

  log_method_one :
      (r : Request) (ip : Text) (s : Headers)
      → r.method ≡ codes "POST"
      → LogsOne (log_method q mocking_server r ip) s
  unfolding log_method log post_entry
  log_method_one r ip s m =
      let d : decode r.method ≡ some (codes "POST") = ap decode m ∙ unfold decode in refl in
      (post_entry r ip, rw (d, log_method) refl)

  mock_server_silent :
      (s : Headers) → (s' : Headers) × (mock_server q mocking_server s ≡ (ok tt, s', []))
  unfolding mock_server
  mock_server_silent s = elim (Bool-cases (is_set mocking_server)) [
    | inl e ↦ (remove_server s ++ (codes "Server", mocking_server) ∷ [], rw (e, mock_server) refl)
    | inr e ↦ (s, rw (e, mock_server) refl)
  ]

  is_post :
      (r : Request)
      → r.method ≡ codes "POST"
      → (bytes_eq r.method (codes "GET") ≡ false) × (bytes_eq r.method (codes "POST") ≡ true)
  unfolding bytes_eq
  is_post r m = (ap (λ x. bytes_eq x (codes "GET")) m, ap (λ x. bytes_eq x (codes "POST")) m)

  respond-login :
      (r : Request) (ip u p : Text) (s : Headers)
      → r.method ≡ codes "POST"
      → r.content ≡ login_form safe u p
      → takes_login q mocking_server r ≡ true
      → IsSent u
      → IsSent p
      → (s' : Headers) × (respond q mocking_server r ip s
          ≡ (ok home, s', logged (login_entry q u p ip r.client.port) ∷ []))
  unfolding respond
  respond-login r ip u p s m c t g h =
      let (no_get, post) = is_post r m in
      (
        s ++ (codes "Content-Type", codes "text/html; charset=utf-8") ∷ [],
        rw (no_get, respond) (rw post (rw (render_post-login r ip u p s c t g h) refl)),
      )

  -- A browser that sends the login form of `/login.html` or `/`, encoded with whatever safe characters,
  -- leaves exactly three entries, the last one with the name and the password that were typed,
  -- whatever characters they have and whatever other headers come with the form, and gets the home
  -- page. The server has a name and a password, and both fields have at least one character.
  pub render-IsLogin :
      (r : Request) (u p : Text) (s : Headers)
      → r.method ≡ codes "POST"
      → r.content ≡ login_form safe u p
      → takes_login q mocking_server r ≡ true
      → IsSent u
      → IsSent p
      → IsLogin
          (login_entry q u p (client_ip r q.options) r.client.port)
          (render q mocking_server r s)
  unfolding render get_headers_and_ip_from_request
  render-IsLogin r u p s m c t g h =
      let ip = client_ip r q.options in
      let (e1, first) = log_connection_one r ip (headers_of r) s in
      let (s1, mock) = mock_server_silent s in
      let (e2, second) = log_method_one r ip s1 m in
      let (s2, last) = respond-login r ip u p s1 m c t g h in
      let (no_get, post) = is_post r m in
      (e1, (e2, (s2, rw (first, render) (rw mock (rw (no_get, post) (rw second (rw last refl)))))))
