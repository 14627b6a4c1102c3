-- ===== src/Mysql/Login.antt =====
-- The login packet of a client, and what the server logs and answers.
use honeypots.Prelude.{
  ◌≡◌, ◌≢◌, ◌⊎◌, refl, true, false, none, some, List, [], ◌∷◌, length, arith, ◌==◌,
}
use honeypots.Python.Bytes.{Bytes, Text, codes, hex}
use honeypots.Python.Dict.{bytes_eq_iff}
use honeypots.Python.Utf8.{decode_replace}
use honeypots.Python.Split.{Lacks}
use honeypots.Python.Value.{Fields, text, int, item, word, fields, update}
use honeypots.Python.Result.{ok}
use honeypots.Session.{logged, sent}
use honeypots.Base.{Server, Peer, server_items}
use honeypots.Helper.{Argument, check_bytes}
use honeypots.Mysql.Packet.{too_many, access_denied, Parsed}
use honeypots.Mysql.Packet.Layout.{handshake_response, parse_data-handshake_response}
use honeypots.Mysql.Scramble.{Word, decode, argument}
use honeypots.Mysql.{State, judge, answer, data_received}

-- the entry of a login packet
abbrev pub login_entry : Server → Peer → Text → Text → Text → Fields
login_entry q peer status username password =
    update
      (fields (
        word "action" "login"
        ∷ item "status" (text status)
        ∷ item "src_ip" (text peer.host)
        ∷ item "src_port" (int peer.port)
        ∷ item "username" (text username)
        ∷ item "password" (text password)
        ∷ []))
      (server_items q)

-- the packet as it is read, for a scramble of 20 bytes
abbrev read : Bytes → Bytes → Parsed
read u scramble = record {
  username = Argument.bytes u;
  password = Argument.bytes scramble;
  good = length scramble == 20;
}

module _ (sha1 : Bytes → Bytes) (words : List Word) (q : Server) (peer : Peer)
    (data_ u : Bytes) where
  judge_success :
      (scramble : Bytes) (w : Word)
      → length scramble ≡ 20
      → decode sha1 words scramble ≡ some w
      → decode_replace u ≡ q.username
      → judge sha1 words q peer data_ (read u scramble) ≡ record {
        status = codes "success";
        password = text (check_bytes (argument w));
        ret_access_denied = false;
      }
  unfolding judge
  judge_success [] w l found same = absurd (omega arith)
  judge_success (b ∷ bs) w l found same =
      ground (arith, check_bytes_lem, bytes_eq_iff (decode_replace u) q.username)
    where
      check_bytes_lem : check_bytes (Argument.bytes u) ≡ decode_replace u
      check_bytes_lem = unfold check_bytes in refl

  judge_failure :
      (scramble : Bytes)
      → length scramble ≡ 20
      → (decode sha1 words scramble ≡ none) ⊎ (decode_replace u ≢ q.username)
      → judge sha1 words q peer data_ (read u scramble) ≡ record {
        status = codes "failed";
        password = text (hex scramble);
        ret_access_denied = true;
      }
  unfolding judge
  judge_failure [] l why = absurd (omega arith)
  judge_failure (b ∷ bs) l why =
      ground (arith, check_bytes_lem, bytes_eq_iff (decode_replace u) q.username)
    where
      check_bytes_lem : check_bytes (Argument.bytes u) ≡ decode_replace u
      check_bytes_lem = unfold check_bytes in refl

abbrev pub ready : State
ready = some 1

module _ (sha1 : Bytes → Bytes) (words : List Word) (q : Server) (peer : Peer)
    (flags u scramble rest : Bytes) (flags_are_36 : length flags ≡ 36) (no_zero : Lacks 0 u)
    (scramble_is_20 : length scramble ≡ 20) where
  abbrev packet : Bytes
  packet = handshake_response flags u scramble rest

  -- A login packet whose name is the configured user's and whose scramble has a known word is logged
  -- as a success with that word, and answered by "too many connections"; the state stays.
  pub data_received_success :
      (w : Word)
      → decode sha1 words scramble ≡ some w
      → decode_replace u ≡ q.username
      → data_received sha1 words q peer packet (some 1) ≡ (
        ok tt,
        some 1,
        logged (login_entry q peer (codes "success") q.username (check_bytes (argument w)))
            ∷ sent too_many
            ∷ [],
      )
  unfolding data_received answer check_bytes
  data_received_success w found same = ground (
    arith,
    parse_data-handshake_response flags u scramble rest flags_are_36 no_zero,
    judge_success sha1 words q peer packet u scramble w scramble_is_20 found same,
  )

  -- A login packet with another name, or with a scramble that no word has, is logged as a failure
  -- with the scramble in hexadecimal as the password, and refused; the state stays.
  pub data_received_failure :
      (decode sha1 words scramble ≡ none) ⊎ (decode_replace u ≢ q.username)
      → data_received sha1 words q peer packet (some 1) ≡ (
        ok tt,
        some 1,
        logged (login_entry q peer (codes "failed") (decode_replace u) (hex scramble))
            ∷ sent access_denied
            ∷ [],
      )
  unfolding data_received answer check_bytes
  data_received_failure why = ground (
    arith,
    parse_data-handshake_response flags u scramble rest flags_are_36 no_zero,
    judge_failure sha1 words q peer packet u scramble scramble_is_20 why,
  )
