-- ===== src/Ldap/Packet.antt =====
-- `parse_ldap_packet` of ldap_server.py.
use honeypots.Prelude.{ℕ, ◌+◌, ◌-◌, none, some, [], ◌∷◌, ltb, ◌==◌, if◌then◌else◌}
use honeypots.Python.Bytes.{Bytes, Text, find, slice}
use honeypots.Python.Result.{Result, ok, raised, ◌>>=◌, index, result_or}
use honeypots.Python.Struct.{unpack_h}
use honeypots.Helper.{check_bytes, bytes}

-- authentication with clear text password
abbrev pub auth_simple_bind : ℕ
auth_simple_bind = 0x80

-- where the password starts, and its length
unfoldable pub password_field : Bytes → ℕ → Result (ℕ × ℕ)
password_field data_ username_end = do
  size ← index data_ (username_end + 1)
  if size == 0x82
      then (do
        let password_start = username_end + 4
        password_len ← unpack_h (slice (password_start - 2) password_start data_)
        ok (password_start, password_len))
      else (do
        let password_start = username_end + 2
        password_len ← index data_ (password_start - 1)
        ok (password_start, password_len))

unfoldable pub parse_password : Bytes → ℕ → Result Text
unfolding password_field check_bytes
parse_password data_ username_end = do
  auth_type ← index data_ username_end
  if auth_type == auth_simple_bind
      then (do
        found ← password_field data_ username_end
        ok (check_bytes (bytes (slice found.0 (found.0 + found.1) data_))))
      else ok []

-- Behind the version; an exception on the way keeps what was assigned before it.
unfoldable pub parse_credentials : Bytes → ℕ → Text × Text
unfolding parse_password check_bytes
parse_credentials data_ version_offset =
    let username_start = version_offset + 5 in
    elim (index data_ (username_start - 1)) [
      | raised e ↦ ([], [])
      | ok username_len ↦
          let username_end = username_start + username_len in
          (
            check_bytes (bytes (slice username_start username_end data_)),
            result_or [] (parse_password data_ username_end),
          )
    ]

abbrev pub version_tag : Bytes
version_tag = 2 ∷ 1 ∷ 3 ∷ []

-- the username and the password; both are empty where the packet has none
unfoldable pub parse_ldap_packet : Bytes → Text × Text
unfolding find parse_credentials
parse_ldap_packet data_ = elim (find version_tag data_) [
  | none ↦ ([], [])
  | some version_offset ↦
      if ltb 0 version_offset then parse_credentials data_ version_offset else ([], [])
]
