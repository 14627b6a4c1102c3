-- ===== src/Mssql/Login.antt =====
-- A login packet, and what the server logs for it.
use honeypots.Prelude.{
  ℕ, ◌+◌, ◌*◌, ◌≡◌, ◌≢◌, refl, ap, ◌∙◌, Option, none, some, [], ◌∷◌, get_elem?, All, arith,
}
use honeypots.Python.Bytes.{Bytes, Text, codes, slice, replace}
use honeypots.Python.Utf8.RoundTrip.{IsAscii, decode_ascii}
use honeypots.Python.Split.{replace_head, replace_other}
use honeypots.Python.Result.{ok}
use honeypots.Session.{logged, sent}
use honeypots.Base.{Server, Peer}
use honeypots.Base.Login.{check_login_lem, login_entry}
use honeypots.Mssql.Password.{obfuscate, without_z, IsCharacter, password_of-obfuscate}
use honeypots.Python.Struct.{unpack_hh}
use honeypots.Mssql.Payload.{create_payload, data_stream, with_length}
use honeypots.Mssql.{State, handle_login, data_received}

-- UTF-16 of characters below 256
abbrev pub wide : Text → Bytes
wide [] = []
wide (c ∷ cs) = c ∷ 0 ∷ wide cs

replace-wide : (u : Text) → All (λ c. c ≢ 0) u → replace (0 ∷ []) [] (wide u) ≡ u
replace-wide [] h = unfold replace in refl
replace-wide (c ∷ cs) h =
    replace_other 0 c [] [] (0 ∷ wide cs) h.0
    ∙ ap (◌∷◌ c) (replace_head 0 [] [] (wide cs) ∙ replace-wide cs h.1)

abbrev some_or : Option Bytes → Bytes
some_or none = []
some_or (some b) = b

-- the payload that answers every login
pub login_answer : Bytes
login_answer = some_or (create_payload [] (codes "Login Failed") 18456)

pub login_answer_lem : create_payload [] (codes "Login Failed") 18456 ≡ some login_answer
unfolding login_answer create_payload data_stream with_length
login_answer_lem = refl

-- A login packet of TDS for a user and a password: its type, the positions and lengths of the two
-- fields (in characters, behind the header of 8 bytes), and the fields there.
pub record IsLoginPacket (data_ : Bytes) (u p : Text) : Type 0 where
  pub kind : get_elem? data_ 0 ≡ some 0x10
  pub user_at : ℕ × ℕ
  pub user_position : unpack_hh (slice 48 52 data_) ≡ ok user_at
  pub user : slice (8 + user_at.0) (8 + user_at.0 + user_at.1 * 2) data_ ≡ wide u
  pub password_at : ℕ × ℕ
  pub password_position : unpack_hh (slice 52 56 data_) ≡ ok password_at
  pub password :
      slice (8 + password_at.0) (8 + password_at.0 + password_at.1 * 2) data_ ≡ obfuscate p

abbrev pub ready : State
ready = some 1

abbrev pub IsUser : Text → Type 0
IsUser u = IsAscii u × All (λ c. c ≢ 0) u

handle_login-packet :
    (q : Server) (peer : Peer) (data_ : Bytes) (u p : Text)
    → IsLoginPacket data_ u p
    → IsUser u
    → All IsCharacter p
    → handle_login q peer data_ ready ≡ (
      ok tt,
      some 1,
      logged (login_entry q u (without_z p) peer.host peer.port) ∷ sent login_answer ∷ [],
    )
unfolding handle_login
handle_login-packet q peer data_ u p packet hu hp =
    rw (packet.user_position, packet.user, replace-wide u hu.1, decode_ascii u hu.0)
      (rw (packet.password_position, packet.password, password_of-obfuscate p hp)
        (rw (check_login_lem q u (without_z p) peer.host peer.port ready, login_answer_lem)))

-- A login packet on a new connection, with a user of ASCII characters and a password of characters
-- from 1 to 255, has exactly one login logged, with the user of the packet and with its password
-- without every `Z`, and is answered by the login failure; the state stays.
pub data_received-login :
    (q : Server) (peer : Peer) (data_ : Bytes) (u p : Text)
    → IsLoginPacket data_ u p
    → IsUser u
    → All IsCharacter p
    → data_received q peer data_ (some 1) ≡ (
      ok tt,
      some 1,
      logged (login_entry q u (without_z p) peer.host peer.port) ∷ sent login_answer ∷ [],
    )
unfolding data_received
data_received-login q peer data_ u p packet hu hp =
    ground (arith, packet.kind, handle_login-packet q peer data_ u p packet hu hp)
