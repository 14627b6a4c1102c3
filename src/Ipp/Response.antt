-- ===== src/Ipp/Response.antt =====
-- `_build_response`, `send_response` and `render_POST` of ipp_server.py.
pub mod RequestId
use honeypots.Prelude.{
  ℕ, ◌+◌, Bool, true, false, not, ◌||◌, String, Option, none, some, List, [], ◌∷◌, ◌++◌, length,
  ltb, if◌then◌else◌,
}
use mathlib.Core.Option
use honeypots.Prelude.Int.{ℤ, pos}
use honeypots.Python.Bytes.{Bytes, Text, bytes_eq, codes, join, slice, hex_number}
use honeypots.Python.Result.{Result, ok, raised}
use honeypots.Python.Struct.{pack_h}
use honeypots.Python.Value.{Fields, text, int, item, word, fields, dict}
use honeypots.Session.{Handler, ◌>>=◌, ◌>>◌, pure, skip}
use honeypots.Base.{Server, Peer, log, has_option}
use honeypots.Ipp.Tables.{find_code, find_signed, attribute_group_tags, attribute_syntaxes}
use honeypots.Ipp.Head.{Head, read_head}
use honeypots.Ipp.Attributes.{Groups, str_int, failed, success, is_some, parse_attributes}

abbrev attributes_text : Groups → Text
attributes_text [] = []
attributes_text ((attribute, values) ∷ groups) =
    codes "ATTR "
    ++ attribute
    ++ codes " "
    ++ join (codes ",") values
    ++ codes "|"
    ++ attributes_text groups

-- `response[:-1]` where the last character is the separator
unfoldable pub drop_separator : Text → Text
drop_separator [] = []
drop_separator (c ∷ []) = if bytes_eq (c ∷ []) (codes "|") then [] else c ∷ []
drop_separator (c ∷ d ∷ cs) = c ∷ drop_separator (d ∷ cs)

unfoldable pub response_text : Head → Groups → Text
unfolding drop_separator hex_number
response_text h groups = drop_separator (
    codes "VERSION "
    ++ str_int h.major
    ++ codes "."
    ++ str_int h.minor
    ++ codes "|"
    ++ codes "REQUEST "
    ++ hex_number h.request_id
    ++ codes "|"
    ++ codes "OPERATION "
    ++ h.operation
    ++ codes "|"
    ++ codes "GROUP "
    ++ h.group
    ++ codes "|"
    ++ attributes_text groups)

abbrev respond : Head → Groups × Text → Text × Text
respond h (groups, status) = (response_text h groups, status)

-- The status of a request that cannot be read stays at its initial value.
unfoldable pub build_response : Bytes → Option (Text × Text)
build_response data_ = elim (read_head data_) [
  | raised e ↦ some ([], success)
  | ok h ↦
      if is_some (find_signed attribute_syntaxes h.attr_type)
      then Option.map (respond h) (parse_attributes data_ h.index h.attr_type)
      else some (respond h ([], success))
]

-- one turn of the loop of `attributes_dict_to_bytes`, the value tag first
abbrev attribute_bytes : ℕ → String → String → Bytes
attribute_bytes tag key value =
    tag
    ∷ (pack_h (length (codes key)) ++ (codes key ++ (pack_h (length (codes value)) ++ codes value)))

-- `attributes_dict_to_bytes` of the one dictionary it is called with
unfoldable pub response_attributes : Bytes
response_attributes =
    0x01
    ∷ (attribute_bytes 0x47 "attributes-charset" "utf-8"
        ++ (attribute_bytes 0x48 "attributes-natural-language" "en-us" ++ 0x03 ∷ []))

unfoldable pub response_version : Bytes → Bytes
unfolding bytes_eq
response_version version =
    if bytes_eq version (1 ∷ 1 ∷ [])
      || bytes_eq version (2 ∷ 0 ∷ [])
      || bytes_eq version (2 ∷ 1 ∷ [])
      || bytes_eq version (2 ∷ 2 ∷ [])
    then version
    else 2 ∷ 0 ∷ []

unfoldable pub send_response : Bytes → Bool → Bytes
send_response request successful =
    response_version (slice 0 2 request)
    ++ ((if successful then 0x00 ∷ 0x00 ∷ [] else 0x04 ∷ 0x00 ∷ [])
        ++ (slice 3 7 request ++ response_attributes))

abbrev finish : Server → Peer → Bytes → Text × Text → Handler (Unit {0}) Bytes
finish q peer data_ (response, status) = do
  if ltb 0 (length response)
      then log q (
          word "action" "query"
          ∷ item "status" (text status)
          ∷ item "src_ip" (text peer.host)
          ∷ item "src_port" (int peer.port)
          ∷ item "data" (dict (fields (item "request" (text response) ∷ [])))
          ∷ [])
      else skip
  pure (send_response data_ (not (bytes_eq status failed)))

-- `render_POST`: `peer.host` is the address that `get_headers_and_ip_from_request` gives beside
-- the headers.
unfoldable pub render_post : Server → Peer → Fields → Bytes → Option (Handler (Unit {0}) Bytes)
render_post q peer headers data_ =
    Option.map
      (λ answer. do
        log q (
            word "action" "connection"
            ∷ item "src_ip" (text peer.host)
            ∷ item "src_port" (int peer.port)
            ∷ (if has_option q "capture_commands" then item "data" (dict headers) ∷ [] else []))
        finish q peer data_ answer)
      (build_response data_)
