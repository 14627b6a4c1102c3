-- ===== src/Helper/Request.antt =====
-- `get_headers_and_ip_from_request` of helper.py. The request is the library's; here the parts of it
-- that the servers read, which are there in every request.
use honeypots.Prelude.{none, some, List, [], ◌∷◌}
use honeypots.Python.Bytes.{Bytes, Text, codes, find, join}
use honeypots.Python.Dict.{Dict, get}
use honeypots.Python.Value.{Fields, text, end, put}
use honeypots.Helper.{bytes, check_bytes}
use honeypots.Base.{Peer}

pub record Request : Type 0 where
  pub method : Bytes
  pub uri : Bytes
  pub raw_headers : Dict (List Bytes)
  pub content : Bytes
  pub client : Peer

unfoldable pub checked : List Bytes → List Text
unfolding check_bytes
checked [] = []
checked (b ∷ bs) = check_bytes (bytes b) ∷ checked bs

-- `",".join(map(check_bytes, values))` under each name
unfoldable pub headers_onto : Fields → Dict (List Bytes) → Fields
unfolding put check_bytes checked join
headers_onto d [] = d
headers_onto d ((name, values) ∷ raw) =
    headers_onto (put d (check_bytes (bytes name)) (text (join (codes ",") (checked values)))) raw

unfoldable pub headers_of : Request → Fields
unfolding headers_onto put check_bytes
headers_of r =
    put
      (put (headers_onto end r.raw_headers) (codes "method") (text (check_bytes (bytes r.method))))
      (codes "uri") (text (check_bytes (bytes r.uri)))

-- `check_bytes(values[0])`; without a value the index raises, which is suppressed
unfoldable pub first_of : List Bytes → Text
unfolding check_bytes
first_of [] = []
first_of (b ∷ bs) = check_bytes (bytes b)

-- the address that a proxy in front gives, or the empty text
unfoldable pub forwarded_ip : Dict (List Bytes) → Text
unfolding get first_of
forwarded_ip raw = elim (get raw (codes "X-Forwarded-For")) [
  | some values ↦ first_of values
  | none ↦ elim (get raw (codes "X-Real-IP")) [ some values ↦ first_of values | none ↦ [] ]
]

abbrev or_host : Text → Text → Text
or_host [] host = host
or_host (c ∷ ip) host = c ∷ ip

unfoldable pub client_ip : Request → Text → Text
unfolding find forwarded_ip
client_ip r options = elim (find (codes "fix_get_client_ip") options) [
  | none ↦ r.client.host
  | some i ↦ or_host (forwarded_ip r.raw_headers) r.client.host
]

unfoldable pub get_headers_and_ip_from_request : Request → Text → Text × Fields
unfolding client_ip headers_of
get_headers_and_ip_from_request r options = (client_ip r options, headers_of r)
