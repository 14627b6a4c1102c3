-- ===== src/Http.antt =====
-- base_http_server.py: the resource that the servers of http_server.py and https_server.py serve.
pub mod Login
mod Tests
use honeypots.Prelude.{
  ℕ, Bool, true, false, not, ◌&&◌, ◌||◌, Option, none, some, List, [], ◌∷◌, ◌++◌, if◌then◌else◌,
}
use honeypots.Python.Bytes.{Bytes, Text, codes, bytes_eq}
use honeypots.Python.Dict.{Dict}
use honeypots.Python.Utf8.{decode, decode_replace}
use honeypots.Python.Query.{parse_qsl}
use honeypots.Python.Result.{Result, ok, raised, Exn, of_option}
use honeypots.Python.Value.{Value, Fields, text, int, dict, item, word}
use honeypots.Session.{Handler, ◌>>=◌, ◌>>◌, pure, raise, lift, suppress, skip, modify}
use honeypots.Base.{Server, Peer, log, check_login, has_option}
use honeypots.Helper.Request.{Request, get_headers_and_ip_from_request}

-- `home_file` and `login_file`
pub data Page : Type 0 where
  home login : Page

-- The headers that are set on the response.
abbrev pub Headers : Type 0
Headers = Dict Text

abbrev is_set : Text → Bool
is_set [] = false
is_set (c ∷ t) = true

abbrev is_server : Text × Text → Bool
is_server h = bytes_eq h.0 (codes "Server")

unfoldable pub remove_server : Headers → Headers
unfolding bytes_eq
remove_server [] = []
remove_server (h ∷ hs) = let rest = remove_server hs in if is_server h then rest else h ∷ rest

-- `FieldStorage` gets the headers under byte strings, finds none of them, and so reads the whole
-- content as a form.
unfoldable pub form_of : Bytes → Dict Text
unfolding parse_qsl decode_replace
form_of content = parse_qsl (decode_replace content)

-- The values of a field of the form.
unfoldable pub values_of : Text → Dict Text → List Text
unfolding bytes_eq
values_of name [] = []
values_of name ((k, v) ∷ form) =
    let rest = values_of name form in if bytes_eq k name then v ∷ rest else rest

-- `form[name].value`: where the field is there more than once, `form[name]` is a list.
unfoldable pub value_of : List Text → Result Text
value_of (v ∷ []) = ok v
value_of _ = raised Exn.attribute_error

abbrev is_there : List Text → Bool
is_there [] = false
is_there (v ∷ vs) = true

-- `mocking_server` is the choice of the constructor.
module _ (q : Server) (mocking_server : Text) where
  unfoldable pub log_connection : Request → Text → Fields → Handler Headers (Unit {0})
  unfolding log
  log_connection r ip headers = log q (
      (word "action" "connection"
        ∷ item "src_ip" (text ip)
        ∷ item "src_port" (int r.client.port)
        ∷ [])
      ++ (if has_option q "capture_commands" then item "data" (dict headers) ∷ [] else []))

  -- `request.method.decode()`
  unfoldable pub log_method : Request → Text → Handler Headers (Unit {0})
  unfolding log decode
  log_method r ip = do
    name ← lift (of_option Exn.unicode_error (decode r.method))
    log q (
        item "action" (text name)
        ∷ item "src_ip" (text ip)
        ∷ item "src_port" (int r.client.port)
        ∷ [])

  unfoldable pub mock_server : Handler Headers (Unit {0})
  unfolding remove_server
  mock_server =
      if is_set mocking_server
      then modify (λ hs. remove_server hs ++ (codes "Server", mocking_server) ∷ [])
      else skip

  abbrev add_content_type : Handler Headers (Unit {0})
  add_content_type =
      modify (λ hs. hs ++ (codes "Content-Type", codes "text/html; charset=utf-8") ∷ [])

  -- what the form says; `form` is read from the content
  unfoldable pub check_form : Request → Text → Dict Text → Handler Headers (Unit {0})
  unfolding values_of value_of
  check_form r ip form =
      let usernames = values_of (codes "username") form in
      let passwords = values_of (codes "password") form in
      if is_there usernames && is_there passwords
      then (do
        username ← lift (value_of usernames)
        password ← lift (value_of passwords)
        _ ← check_login q username password ip r.client.port
        skip)
      else skip

  -- a page that has the form, and credentials to compare with
  unfoldable pub takes_login : Request → Bool
  unfolding bytes_eq
  takes_login r =
      (bytes_eq r.uri (codes "/login.html") || bytes_eq r.uri (codes "/"))
      && (is_set q.username && is_set q.password)

  unfoldable pub render_post : Request → Text → Handler Headers (Unit {0})
  unfolding takes_login check_form form_of
  render_post r ip = if takes_login r then check_form r ip (form_of r.content) else skip

  -- The part behind the log: a GET gets the page with the form whatever its path is.
  unfoldable pub respond : Request → Text → Handler Headers Page
  unfolding bytes_eq
  respond r ip = if bytes_eq r.method (codes "GET") then (do add_content_type; pure login) else (do
    if bytes_eq r.method (codes "POST") then render_post r ip else skip
    add_content_type
    pure home)

  abbrev is_logged : Request → Bool
  is_logged r = bytes_eq r.method (codes "GET") || bytes_eq r.method (codes "POST")

  unfoldable pub render : Request → Handler Headers Page
  unfolding bytes_eq
  render r =
      let (ip, headers) = get_headers_and_ip_from_request r q.options in
      do
        suppress (log_connection r ip headers)
        mock_server
        if is_logged r then log_method r ip else skip
        respond r ip
