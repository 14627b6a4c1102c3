-- ===== src/Redis/Auth.antt =====
-- What redis_server.py makes of an AUTH command as a client writes it.
use honeypots.Prelude.{
  ℕ, ◌+◌, ◌<◌, ◌≡◌, ◌≢◌, refl, ap, ◌∙◌, arith, Bool-cases, Option, some, List, [], ◌∷◌, ◌++◌,
  length, All, All-append, ltb, if◌then◌else◌,
}
use honeypots.Prelude.Int.{pos}
use honeypots.Python.Bytes.{Bytes, Text, codes, bytes_eq, split, str}
use honeypots.Python.Utf8.RoundTrip.{IsAscii, decode_ascii}
use honeypots.Python.Split.{Lacks, split-append, split_last}
use honeypots.Python.Digits.{IsDigits, str-IsDigits, str-Leading}
use honeypots.Python.Result.{ok}
use honeypots.Session.{logged, sent, closed}
use honeypots.Base.{Server, Peer}
use honeypots.Base.Login.{check_login_lem, login_entry}
use honeypots.Helper.{check_bytes}
use honeypots.Redis.Command.{parse_field, get_command, credentials}
use honeypots.Redis.{State, parse_data, data_received}

-- A bulk string of the protocol, with what follows it.
abbrev bulk : Bytes → Bytes → Bytes
bulk t rest = b'$' ∷ (str (length t) ++ (codes "\r\n" ++ (t ++ (codes "\r\n" ++ rest))))

-- What a client sends to log in.
abbrev pub auth : Bytes → Bytes → Bytes
auth username password =
    codes "*3"
    ++ (codes "\r\n"
        ++ (codes "$4"
            ++ (codes "\r\n"
                ++ (codes "AUTH" ++ (codes "\r\n" ++ bulk username (bulk password []))))))

-- What is read of a string: nothing where its length has more than one digit.
abbrev pub heard : Bytes → Text
heard t = if ltb (length t) 10 then t else []

-- what the client writes in one word
abbrev pub IsPlain : Bytes → Type 0
IsPlain = All (λ c. (c < 0x80) × (c ≢ 13))

abbrev size : Bytes → Text
size t = b'$' ∷ str (length t)

plain-Lacks : (t : Bytes) → IsPlain t → Lacks 13 t
plain-Lacks [] h = tt
plain-Lacks (c ∷ t) h = (h.0.1, plain-Lacks t h.1)

plain-IsAscii : (t : Bytes) → IsPlain t → IsAscii t
plain-IsAscii [] h = tt
plain-IsAscii (c ∷ t) h = (h.0.0, plain-IsAscii t h.1)

digits-IsPlain : (t : Text) → IsDigits t → IsPlain t
digits-IsPlain [] h = tt
digits-IsPlain (c ∷ t) h = ((ground (arith, h.0), ground (arith, h.0)), digits-IsPlain t h.1)

size-IsPlain : (t : Bytes) → IsPlain (size t)
size-IsPlain t =
    ((omega arith, omega arith), digits-IsPlain (str (length t)) (str-IsDigits (length t)))

split-bulk :
    (t rest : Bytes)
    → IsPlain t
    → split (codes "\r\n") (bulk t rest) ≡ size t ∷ t ∷ split (codes "\r\n") rest
split-bulk t rest h =
    split-append 13 (10 ∷ []) (size t) (t ++ (codes "\r\n" ++ rest))
      (plain-Lacks (size t) (size-IsPlain t))
    ∙ ap (◌∷◌ (size t)) (split-append 13 (10 ∷ []) t rest (plain-Lacks t h))

abbrev parts : Bytes → Bytes → List Text
parts u p = codes "*3" ∷ codes "$4" ∷ codes "AUTH" ∷ size u ∷ u ∷ size p ∷ p ∷ [] ∷ []

-- the words in front of the strings, with what follows them
split-words :
    (rest : Bytes)
    → split (codes "\r\n") (codes "*3\r\n$4\r\nAUTH\r\n" ++ rest)
      ≡ codes "*3" ∷ codes "$4" ∷ codes "AUTH" ∷ split (codes "\r\n") rest
split-words rest =
    split-append 13 (10 ∷ []) (codes "*3") (codes "$4\r\nAUTH\r\n" ++ rest) (omega arith)
    ∙ ap (◌∷◌ (codes "*3")) (
        split-append 13 (10 ∷ []) (codes "$4") (codes "AUTH\r\n" ++ rest) (omega arith)
        ∙ ap (◌∷◌ (codes "$4")) (split-append 13 (10 ∷ []) (codes "AUTH") rest (omega arith)))

split-auth : (u p : Bytes) → IsPlain u → IsPlain p → split (codes "\r\n") (auth u p) ≡ parts u p
split-auth u p hu hp =
    split-words (bulk u (bulk p []))
    ∙ ap (λ r. codes "*3" ∷ codes "$4" ∷ codes "AUTH" ∷ r)
        (split-bulk u (bulk p []) hu
          ∙ ap (λ r. size u ∷ u ∷ r)
              (split-bulk p [] hp ∙ ap (λ r. size p ∷ p ∷ r) (split_last 13 (10 ∷ []) [] tt)))

bulk-IsAscii : (t rest : Bytes) → IsPlain t → IsAscii rest → IsAscii (bulk t rest)
bulk-IsAscii t rest h r =
    All-append (λ b. b < 0x80) (size t) (codes "\r\n" ++ (t ++ (codes "\r\n" ++ rest)))
      (plain-IsAscii (size t) (size-IsPlain t))
      (
        omega arith,
        (
          omega arith,
          All-append (λ b. b < 0x80) t (codes "\r\n" ++ rest) (plain-IsAscii t h)
              (omega arith, (omega arith, r)),
        ),
      )

auth-IsAscii : (u p : Bytes) → IsPlain u → IsPlain p → IsAscii (auth u p)
auth-IsAscii u p hu hp =
    All-append (λ b. b < 0x80) (codes "*3\r\n$4\r\nAUTH\r\n") (bulk u (bulk p [])) (omega arith)
      (bulk-IsAscii u (bulk p []) hu (bulk-IsAscii p [] hp tt))

-- `int` of an ASCII digit
abbrev pub ReadsDigits : (ℕ → Option ℕ) → Type 0
ReadsDigits decimal = (d : ℕ) → d < 10 → decimal (48 + d) ≡ some d

module _ (decimal : ℕ → Option ℕ) (digits : ReadsDigits decimal) where
  parse_field-first :
      (t x y : Bytes) → parse_field decimal (size t ∷ t ∷ x ∷ y ∷ [] ∷ []) 0 ≡ ok (heard t)
  unfolding parse_field
  parse_field-first t x y =
      let (d, (r, (e, (b, eq)))) = str-Leading (length t) in
      ground (arith, e, digits d b, eq, Bool-cases (ltb (length t) 10))

  parse_field-second :
      (t x y : Bytes) → parse_field decimal (x ∷ y ∷ size t ∷ t ∷ [] ∷ []) 1 ≡ ok (heard t)
  unfolding parse_field
  parse_field-second t x y =
      let (d, (r, (e, (b, eq)))) = str-Leading (length t) in
      ground (arith, e, digits d b, eq, Bool-cases (ltb (length t) 10))

  module _ (u p : Bytes) (hu : IsPlain u) (hp : IsPlain p) where
    get_command-auth : get_command decimal (auth u p) ≡ (pos 2, codes "AUTH")
    unfolding get_command parse_field bytes_eq
    get_command-auth =
        rw (decode_ascii (auth u p) (auth-IsAscii u p hu hp), split-auth u p hu hp)
          (rw (digits 3 (omega arith), digits 4 (omega arith)) refl)

    credentials-auth : credentials decimal (pos 2) (auth u p) ≡ ok (some (heard u, heard p))
    unfolding credentials
    credentials-auth =
        rw (decode_ascii (auth u p) (auth-IsAscii u p hu hp), split-auth u p hu hp)
          (rw (parse_field-first u (size p) p, parse_field-second p (size u) u) refl)

-- A client that sends AUTH with a user name and a password of ASCII characters without a carriage
-- return is logged as a login and refused, and the connection is closed. A name or a password is
-- logged as it is where it is shorter than ten characters, and as the empty text where it is not:
-- of its length, one digit is read. `int` is assumed to read the ten ASCII digits.
pub data_received-auth :
    (decimal : ℕ → Option ℕ)
    → ReadsDigits decimal
    → (q : Server) (peer : Peer) (u p : Bytes) → IsPlain u
    → IsPlain p
    → (s : State)
    → data_received decimal q peer (auth u p) s ≡ (
      ok tt,
      s,
      logged (login_entry q (heard u) (heard p) peer.host peer.port)
          ∷ sent (codes "-ERR invalid password\r\n")
          ∷ closed
          ∷ [],
    )
unfolding data_received parse_data check_bytes bytes_eq
data_received-auth decimal digits q peer u p hu hp s =
    rw
      (
        get_command-auth decimal digits u p hu hp,
        credentials-auth decimal digits u p hu hp,
        check_login_lem q (heard u) (heard p) peer.host peer.port s,
      )
      refl
