-- ===== src/HttpProxy.antt =====
-- http_proxy_server.py: every request whose host resolves gets the dummy page.
pub mod Length
mod Tests
use honeypots.Prelude.{true, false, drop, Option, none, some, List, [], ◌∷◌, ◌++◌, length}
use honeypots.Python.Bytes.{Bytes, Text, codes, join, split, str, starts_with}
use honeypots.Python.Utf8.{encode, decode_replace}
use honeypots.Python.Value.{text, int, item, word}
use honeypots.Session.{Handler, ◌>>=◌, ◌>>◌, pure, write, lose_connection, modify}
use honeypots.Base.{Server, Peer, log, log_connection}

-- What the file of the template holds, if there is one: where it is missing, that is only logged.
pub data TemplateFile : Type 0 where
  missing : TemplateFile
  contents : Bytes → TemplateFile

-- `_load_template`; `template` is the path of the configuration
unfoldable pub load_template : Option Text → (Text → TemplateFile) → Option Text
unfolding decode_replace
load_template none read = none
load_template (some []) read = none
load_template (some (c ∷ path)) read = elim (read (c ∷ path)) [
  | missing ↦ none
  | contents b ↦ some (decode_replace b)
]

unfoldable pub create_dummy_response : Text → Bytes
unfolding encode join str
create_dummy_response content = encode (
    join (codes "\r\n") (
      codes "HTTP/1.1 200 OK"
      ∷ (codes "Content-Length: " ++ str (length content))
      ∷ []
      ∷ content
      ∷ []))

-- `self.buffer`; `self.client` stays None.
pub record State : Type 0 where
  pub buffer : Option Bytes

unfoldable pub initial : State
initial = record { buffer = none }

-- `request_string.split(b"\r\n", 1)`, where the break occurs
unfoldable pub behind_line : Bytes → Option Bytes
unfolding starts_with
behind_line [] = none
behind_line (c ∷ cs) =
    let rest = behind_line cs in
    elim (starts_with (codes "\r\n") (c ∷ cs)) [ true ↦ some (drop 1 cs) | false ↦ rest ]

-- `template_contents or DUMMY_TEMPLATE`
abbrev page_of : Option Text → Text → Text
page_of none dummy = dummy
page_of (some []) dummy = dummy
page_of (some (c ∷ t)) dummy = c ∷ t

abbrev first_part : List Text → Text
first_part [] = []
first_part (p ∷ ps) = p

-- `host_of` is the header "host" that the parser of the library finds, `resolve` the first address
-- that the resolver finds, `dummy` the page of the repository.
module _ (q : Server) (peer : Peer) (host_of : Bytes → Option Text) (resolve : Text → Option Text)
    (dummy : Text) (template_contents : Option Text) where
  unfoldable pub resolve_host : Text → Handler State (Option Text)
  unfolding log split
  resolve_host host =
      let name = first_part (split (codes ":") host) in
      do
        log q (
            word "action" "query"
            ∷ item "src_ip" (text peer.host)
            ∷ item "src_port" (int peer.port)
            ∷ item "data" (text name)
            ∷ [])
        pure (resolve name)

  -- Without a line break or a host the code raises, which is suppressed.
  unfoldable pub resolve_domain : Bytes → Handler State (Option Text)
  unfolding behind_line resolve_host
  resolve_domain request_string = elim (behind_line request_string) [
    | none ↦ pure none
    | some parsed_request ↦ elim (host_of parsed_request) [
      | none ↦ pure none
      | some host ↦ resolve_host host
    ]
  ]

  -- an empty address is none
  unfoldable pub answer : Option Text → Handler State (Unit {0})
  unfolding create_dummy_response
  answer none = lose_connection
  answer (some []) = lose_connection
  answer (some (c ∷ ip)) = write (create_dummy_response (page_of template_contents dummy))

  unfoldable pub data_received : Bytes → Handler State (Unit {0})
  unfolding resolve_domain answer
  data_received data_ = do
    log_connection q peer
    ip ← resolve_domain data_
    answer ip
    modify (λ s. record s { buffer = some data_ })
