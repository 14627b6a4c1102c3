-- ===== src/Ipp/Head.antt =====
-- The part of a request that `_build_response` of ipp_server.py reads before the attributes.
use honeypots.Prelude.{ℕ}
use honeypots.Prelude.Int.{ℤ}
use honeypots.Python.Bytes.{Bytes, Text, codes}
use honeypots.Python.Result.{Result, ok, ◌>>=◌, of_option, key_error}
use honeypots.Ipp.Tables.{find_code, find_signed, attribute_group_tags}
use honeypots.Ipp.Tables.Operations.{supported_operations}
use honeypots.Ipp.Reader.{get_uint8_t, get_uint16_t, get_uint32_t}

-- What is read before the attributes: the variables of `_build_response`.
pub record Head : Type 0 where
  pub major : ℤ
  pub minor : ℤ
  pub operation : Text
  pub request_id : ℕ
  pub group : Text
  pub index : ℕ
  pub attr_type : ℤ

unfoldable pub read_head : Bytes → Result Head
read_head data_ = do
  (i, major) ← get_uint8_t 0 data_
  (j, minor) ← get_uint8_t i data_
  (k, code) ← get_uint16_t j data_
  operation ← of_option key_error (find_code supported_operations code)
  (l, request_id) ← get_uint32_t k data_
  (m, tag) ← get_uint8_t l data_
  group ← of_option key_error (find_signed attribute_group_tags tag)
  (n, attr_type) ← get_uint8_t m data_
  ok (record {
    major = major;
    minor = minor;
    operation = codes operation;
    request_id = request_id;
    group = codes group;
    index = n;
    attr_type = attr_type;
  })
