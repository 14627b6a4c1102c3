-- ===== src/Postgres/Message.antt =====
-- What postgres_server.py reads out of the two messages.
use honeypots.Prelude.{◌-◌, List, [], ◌∷◌, length, drop}
use honeypots.Python.Bytes.{Bytes, Text, slice, split}
use honeypots.Python.Utf8.{decode}
use honeypots.Python.Dict.{Dict, get, put}
use honeypots.Python.Result.{Result, ok, ◌>>=◌, of_option, index, unicode_error, key_error}

-- `zip(*([iter(encoded_list)] * 2))`: consecutive pairs, an odd one at the end dropped
unfoldable pub pairs : List Text → List (Text × Text)
pairs (k ∷ v ∷ rest) = (k, v) ∷ pairs rest
pairs _ = []

-- `dict(items)`
unfoldable pub dict_onto : Dict Text → List (Text × Text) → Dict Text
unfolding put
dict_onto d [] = d
dict_onto d ((k, v) ∷ items) = dict_onto (put d k v) items

-- `data[8:-1]` of the decoded message, split at the zeros
unfoldable pub read_variables : Bytes → Result (Dict Text)
unfolding decode split pairs dict_onto
read_variables data_ = do
  text ← of_option unicode_error (decode data_)
  ok (dict_onto [] (pairs (split (0 ∷ []) (slice 8 (length text - 1) text))))

unfoldable pub read_password : Bytes → Result Text
unfolding decode split
read_password data_ = do
  text ← of_option unicode_error (decode data_)
  index (split (0 ∷ []) (drop 5 text)) 0

-- `d[k]`
unfoldable pub item : Dict Text → Text → Result Text
unfolding get
item d k = of_option key_error (get d k)
