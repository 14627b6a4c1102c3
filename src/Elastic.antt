-- ===== src/Elastic.antt =====
-- elastic_server.py: the handler of one request. The library parses the request and writes the
-- response; the body of a response is the payload as JSON, compressed, of which the payload is kept.
pub mod Payloads
pub mod Login
mod Tests
use honeypots.Prelude.{
  ℕ, Bool, true, false, Option, none, some, List, [], ◌∷◌, ◌++◌, String, if◌then◌else◌,
}
use honeypots.Python.Bytes.{Bytes, Text, codes, bytes_eq, find, lower, split, starts_with}
use honeypots.Python.Utf8.{decode, encode}
use honeypots.Python.Base64.{b64encode, b64decode}
use honeypots.Python.Dict.{Dict}
use honeypots.Python.Result.{Result, ok, raised, Exn, index, of_option, ◌>>=◌}
use honeypots.Python.Value.{
  Value, Fields, text, int, array, dict, cons, nil, item, word, fields, end, field, put, merge,
}
use honeypots.Helper.{bytes, check_bytes}
use honeypots.Base.{Server, Peer, server_items}
use honeypots.Elastic.Payloads.{normal_payload, nodes_payload, cluster_health_payload}

-- The parts of a request that the handler reads. `path_of` is `urlparse(self.path).path`.
pub record Request : Type 0 where
  pub requestline : Bytes
  pub path_of : Result Text
  pub headers : Dict Text
  pub authorization : Option Text

-- What a request leaves: an entry, or a response with its headers and its payload.
pub data Event : Type 0 where
  logged : Fields → Event
  answered : ℕ → Dict Text → Option Value → Event

-- The events so far, and how the handler ends: an exception drops the connection.
abbrev pub Outcome : Type 0
Outcome = Result (Unit {0}) × List Event

-- what is done next, unless the handler raised
infixl 10 ◌then◌
abbrev pub ◌then◌ : Outcome → Outcome → Outcome
(ok x, o) then (r, o') = (r, o ++ o')
(raised e, o) then k = (raised e, o)

abbrev pub does : Event → Outcome
does e = (ok tt, e ∷ [])

abbrev pub with_ {ℓ} : {A : Type ℓ} → Result A → (A → Outcome) → Outcome
with_ (ok a) f = f a
with_ (raised e) f = (raised e, [])

unfoldable pub log : Server → List (Text × Value) → Outcome
unfolding put
log q log_data = does (logged (merge (fields log_data) (fields (server_items q))))

abbrev header : String → String → Text × Text
header k v = (codes k, codes v)

abbrev gzip_headers : Dict Text
gzip_headers =
    header "content-encoding" "gzip" ∷ header "content-type" "application/json; charset=UTF-8" ∷ []

abbrev challenge : Text × Text
challenge = header "WWW-Authenticate" "Basic realm=\"security\" charset=\"UTF-8\""

-- `_set_response_gzip` and the write behind it
unfoldable pub send_payload : ℕ → Value → Outcome
send_payload code payload = does (answered code gzip_headers (some payload))

-- the server of the handler: `set_auth_key`
unfoldable pub auth_key : Text → Text → Text
unfolding b64encode encode
auth_key username password = b64encode (encode (username ++ codes ":" ++ password))

abbrev header_fields : Dict Text → Fields
header_fields [] = end
header_fields ((k, v) ∷ d) = field k (text v) (header_fields d)

abbrev pub security_error : Text → Fields
security_error reason = fields (
    word "type" "security_exception"
    ∷ item "reason" (text reason)
    ∷ item "header"
        (dict (fields (word "WWW-Authenticate" "Basic realm=\"security\" charset=\"UTF-8\"" ∷ [])))
    ∷ [])

-- `extracted.split("/")[1].lower()`
unfoldable pub index_name : Text → Result Text
unfolding split lower
index_name extracted = elim (index (split (codes "/") extracted) 1) [
  | ok name ↦ ok (lower name)
  | raised e ↦ raised e
]

abbrev invalid_index : Text → Fields
invalid_index name = fields (
    word "type" "invalid_index_name_exception"
    ∷ item "reason"
        (text (codes "Invalid index name [" ++ name ++ codes "], must not start with \"_\"."))
    ∷ word "index_uuid" "_na_"
    ∷ item "index" (text name)
    ∷ [])

abbrev missing_index : Text → Fields
missing_index name = fields (
    word "type" "index_not_found_exception"
    ∷ item "reason" (text (codes "no such index [" ++ name ++ codes "]"))
    ∷ word "resource.type" "index_or_alias"
    ∷ item "resource.id" (text name)
    ∷ word "index_uuid" "_na_"
    ∷ item "index" (text name)
    ∷ [])

-- `username, password = basic.split(":")`
abbrev two_parts : List Text → Result (Text × Text)
two_parts (u ∷ p ∷ []) = ok (u, p)
two_parts _ = raised Exn.value_error

-- the name and the password of the header, by the lines of the last branch
unfoldable pub basic_credentials : Text → Result (Text × Text)
unfolding split b64decode decode
basic_credentials authorization = do
  encoded ← index (split (codes " ") authorization) 1
  raw ← b64decode encoded
  basic ← of_option Exn.unicode_error (decode raw)
  two_parts (split (codes ":") basic)

-- Where `urlparse` raises, `extracted` is unbound.
abbrev pub bound : Result Text → Result Text
bound (ok t) = ok t
bound (raised e) = raised Exn.name_error

module _ (q : Server) (peer : Peer) where
  -- `_dump_headers`; header names and values are texts, which `check_bytes` keeps
  unfoldable pub dump_headers : Request → Outcome
  unfolding log check_bytes
  dump_headers r = log q (
      word "action" "dump"
      ∷ item "data" (text (check_bytes (bytes r.requestline)))
      ∷ item "src_ip" (text peer.host)
      ∷ item "src_port" (int peer.port)
      ∷ item "headers" (dict (header_fields r.headers))
      ∷ [])

  -- `_send_auth_payload` with `_set_response_gzip_auth`
  unfoldable pub send_auth_payload : Request → Value → ℕ → Outcome
  unfolding dump_headers
  send_auth_payload r payload code =
      dump_headers r then does (answered code (gzip_headers ++ challenge ∷ []) (some payload))

  -- `_send_auth_error`
  unfoldable pub send_auth_error : Request → Fields → ℕ → Outcome
  unfolding send_auth_payload merge
  send_auth_error r error code =
      send_auth_payload r
        (dict (
          fields (
            item "error"
              (dict (merge (fields (item "root_cause" (array (cons (dict error) nil)) ∷ [])) error))
            ∷ item "status" (int code)
            ∷ [])))
        code

  unfoldable pub log_login : Text → Text → Text → Outcome
  unfolding log
  log_login status username password = log q (
      word "action" "login"
      ∷ item "status" (text status)
      ∷ item "src_ip" (text peer.host)
      ∷ item "src_port" (int peer.port)
      ∷ item "username" (text username)
      ∷ item "password" (text password)
      ∷ [])

  -- The answers to a client that is logged in, by the path.
  unfoldable pub answer_path : Request → Text → Outcome
  unfolding bytes_eq starts_with send_payload send_auth_payload send_auth_error index_name
  answer_path r extracted =
      if bytes_eq extracted (codes "/")
      then send_payload 200 normal_payload
      else if starts_with (codes "/_nodes") extracted
      then send_payload 200 nodes_payload
      else if starts_with (codes "/_cluster/health") extracted
      then send_auth_payload r cluster_health_payload 200
      else if starts_with (codes "/_") extracted
      then with_ (index_name extracted) (λ name. send_auth_error r (invalid_index name) 400)
      else with_ (index_name extracted) (λ name. send_auth_error r (missing_index name) 404)

  unfoldable pub refuse : Request → Text → Outcome
  unfolding basic_credentials log_login send_auth_error
  refuse r authorization = with_ (basic_credentials authorization) (λ c.
      log_login (codes "failed") c.0 c.1
      then send_auth_error r
          (security_error (codes "missing authentication credentials for REST request [/]")) 401)

  unfoldable pub do_get : Request → Outcome
  unfolding auth_key bytes_eq log_login send_auth_error answer_path refuse
  do_get r = elim r.authorization [
    | none ↦
        log_login (codes "failed") [] []
        then send_auth_error r
            (security_error (codes "unable to authenticate user [] for REST request [/]")) 401
    | some a ↦
        if bytes_eq a (codes "Basic " ++ auth_key q.username q.password)
        then log_login (codes "success") q.username q.password
        then with_ (bound r.path_of) (answer_path r)
        else refuse r a
  ]

  unfoldable pub do_head : Outcome
  do_head = does (answered 200 gzip_headers none)

  unfoldable pub log_request : Outcome
  unfolding log
  log_request = log q (
      word "action" "connection"
      ∷ item "src_ip" (text peer.host)
      ∷ item "src_port" (int peer.port)
      ∷ [])

  -- `handle_one_request`, where the library finds a method that `do_GET` serves
  unfoldable pub handle_one_request : Request → Outcome
  unfolding log_request do_get
  handle_one_request r = log_request then do_get r
