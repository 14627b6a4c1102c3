-- ===== src/Socks5.antt =====
-- socks5_server.py: the greeting of RFC 1928 and the user/password request of RFC 1929, read by
-- `recv` from what arrives.
pub mod Login
mod Tests
use honeypots.Prelude.{
  ℕ, Bool, true, false, ◌||◌, Option, none, some, List, [], ◌∷◌, length, take, drop, leb, ◌==◌,
  if◌then◌else◌,
}
use honeypots.Python.Bytes.{Bytes}
use honeypots.Python.Result.{Exn, Result, ok, raised, connection_reset, struct_error, type_error}
use honeypots.Python.Struct.{unpack_b, unpack_bb}
use honeypots.Session.{
  Handler, ◌>>=◌, ◌>>◌, lift, pure, emit, debugged, write, lose_connection, try_except, skip,
}
use honeypots.Base.{Server, Peer, log, log_connection, check_login, check_login_}
use honeypots.Helper.{bytes, check_bytes}

abbrev pub user_pw_auth_v1 : ℕ
user_pw_auth_v1 = 1

abbrev pub socks_v5 : ℕ
socks_v5 = 5

abbrev pub auth_type_user_pw : ℕ
auth_type_user_pw = 2

-- What still comes from the client: bytes that arrive together, or a reset.
pub data Arrival : Type 0 where
  chunk : Bytes → Arrival
  reset : Arrival

-- `self.connection.recv(n)`: at most n bytes of what has arrived, none at the end
unfoldable pub recv : ℕ → Handler (List Arrival) Bytes
recv n [] = (ok [], [], [])
recv n (reset ∷ rest) = (raised connection_reset, rest, [])
recv n (chunk c ∷ rest) =
    if leb (length c) n then (ok c, rest, []) else (ok (take n c), chunk (drop n c) ∷ rest, [])

-- `unpack("!" + "B" * n, data)`
abbrev pub unpack_bytes : ℕ → Bytes → Result Bytes
unpack_bytes n data_ = if length data_ == n then ok data_ else raised struct_error

-- `ord(data)`
abbrev pub ord : Bytes → Result ℕ
ord (b ∷ []) = ok b
ord _ = raised type_error

-- `b in data`
unfoldable pub mem : ℕ → Bytes → Bool
mem b [] = false
mem b (x ∷ xs) = x == b || mem b xs

unfoldable pub recv_field : Handler (List Arrival) Bytes
unfolding recv
recv_field = do size ← recv 1; len ← lift (ord size); recv len

unfoldable pub check_user_pw_auth : Server → Peer → Handler (List Arrival) (Unit {0})
unfolding recv_field check_bytes
check_user_pw_auth q peer = do
  first ← recv 1
  auth_version ← lift (unpack_b first)
  if auth_version == user_pw_auth_v1
      then (do
        username ← recv_field
        password ← recv_field
        check_login_ q (check_bytes (bytes username)) (check_bytes (bytes password)) peer)
      else skip

unfoldable pub greet : Server → Peer → Handler (List Arrival) (Unit {0})
unfolding check_user_pw_auth mem
greet q peer = do
  head ← recv 2
  greeting ← lift (unpack_bb head)
  if greeting.0 == socks_v5
      then (do
        methods ← recv greeting.1
        supported ← lift (unpack_bytes greeting.1 methods)
        if mem auth_type_user_pw supported
            then (do write (5 ∷ 2 ∷ []); check_user_pw_auth q peer)
            else skip)
      else skip

abbrev pub is_caught : Exn → Bool
is_caught connection_reset = true
is_caught struct_error = true
is_caught _ = false

unfoldable pub handle : Server → Peer → Handler (List Arrival) (Unit {0})
unfolding greet log
handle q peer = do
  log_connection q peer
  try_except (greet q peer) is_caught (λ _. emit debugged)
  lose_connection
