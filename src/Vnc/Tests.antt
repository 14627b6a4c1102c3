-- ===== src/Vnc/Tests.antt =====
-- The theorems on vnc_server.py at concrete passwords, with a cipher that keeps the key in view.
use honeypots.Prelude.{◌≡◌, refl, [], ◌∷◌, ◌++◌}
use honeypots.Python.Bytes.{Bytes, Text, codes, bytes_eq}
use honeypots.Python.Dict.{Dict, put}
use honeypots.Python.Result.{ok}
use honeypots.Vnc.Passwords.{challenge, encode, known_passwords}

abbrev cipher : Bytes → Bytes → Bytes
cipher key text = key ++ text

-- the key of `pw`: the bits of its characters reversed, and zeros
abbrev key : Bytes
key = 14 ∷ 238 ∷ 0 ∷ 0 ∷ 0 ∷ 0 ∷ 0 ∷ 0 ∷ []

abbrev known : Dict Text
known = (key ++ challenge, codes "pw") ∷ []

table_of_password : known_passwords cipher [] (codes "pw") ≡ ok known
unfolding known_passwords encode put bytes_eq
table_of_password = refl
