-- ===== src/Ipp/Tests.antt =====
-- The theorems on ipp_server.py at concrete requests.
use honeypots.Prelude.{◌≢◌, none, [], ◌∷◌, ◌++◌}
use honeypots.Prelude.Int.{pos}
use honeypots.Python.Bytes.{Bytes, codes}
use honeypots.Ipp.Attributes.{parse_attributes}
use honeypots.Ipp.Attributes.Total.{parse_attributes_total}
use honeypots.Ipp.Response.RequestId.{request}

abbrev attributes : Bytes
attributes = 0x47 ∷ 0 ∷ 18 ∷ (codes "attributes-charset" ++ 0 ∷ 5 ∷ (codes "utf-8" ++ 0x03 ∷ []))

abbrev example : Bytes
example = request 2 0 0x0b 7 (0x01 ∷ attributes)

parse_attributes_total_example : parse_attributes example 10 (pos 0x47) ≢ none
parse_attributes_total_example = parse_attributes_total example 10 (pos 0x47)
