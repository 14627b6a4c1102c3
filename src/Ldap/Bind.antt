-- ===== src/Ldap/Bind.antt =====
-- A simple bind request, as RFC 4511 lays it out in BER, and what `parse_ldap_packet` reads in it.
use honeypots.Prelude.{
  ℕ, suc, ◌+◌, ◌-◌, ◌/◌, ◌%◌, ◌≤◌, ◌<◌, ◌≡◌, ◌≢◌, ◌⊎◌, ap, true, ◌∙◌, some, [], ◌∷◌, ◌++◌, length,
  take, drop, length-append, take-append_self, drop-append_add, get_elem?-append_add, append_assoc,
  ltb, if◌then◌else◌, arith, inl, inr,
}
use honeypots.Python.Bytes.{Bytes, find, slice}
use honeypots.Python.Utf8.{decode_replace}
use honeypots.Python.Result.{Result, ok, raised, Result-cases, result_or}
use honeypots.Helper.{check_bytes}
use honeypots.Ldap.Packet.{
  password_field, parse_password, parse_credentials, parse_ldap_packet, version_tag,
}

-- The BER length octets of a number below 2 ^ 16, in the shortest form.
abbrev pub ber_length : ℕ → Bytes
ber_length n =
    if ltb n 128
    then n ∷ []
    else if ltb n 256
    then 0x81 ∷ n ∷ []
    else 0x82 ∷ (n / 256) ∷ (n % 256) ∷ []

-- The message up to the version: the sequence, the message id and the bind tag with their lengths.
abbrev pub bind_header : ℕ → ℕ → ℕ → Bytes
bind_header outer mid inner = 0x30 ∷ (ber_length outer ++ 2 ∷ 1 ∷ mid ∷ 0x60 ∷ ber_length inner)

-- The version, the name and the simple authentication choice.
abbrev pub bind_body : Bytes → Bytes → Bytes → Bytes
bind_body user password rest =
    2
    ∷ 1
    ∷ 3
    ∷ 4
    ∷ length user
    ∷ (user ++ 0x80 ∷ (ber_length (length password) ++ password ++ rest))

-- The first version tag is the real one, unless the message id is 3.
find-bind_header :
    (outer mid inner : ℕ) (rest : Bytes)
    → mid ≢ 3
    → find version_tag (bind_header outer mid inner ++ 2 ∷ 1 ∷ 3 ∷ rest)
      ≡ some (length (bind_header outer mid inner))
unfolding find
find-bind_header outer mid inner rest h = ground arith

slice-append_add :
    (h t : Bytes) (a b : ℕ) → slice (length h + a) (length h + b) (h ++ t) ≡ slice a b t
slice-append_add h t a b = rw (drop-append_add h t a) (ap (λ n. take n (drop a t)) len)
  where
    len : length h + b - (length h + a) ≡ b - a
    len = omega arith

shift : Bytes → Result (ℕ × ℕ) → Result (ℕ × ℕ)
shift h (ok f) = ok (length h + f.0, f.1)
shift h (raised e) = raised e

password_field-append :
    (h t : Bytes) → password_field (h ++ t) (length h) ≡ shift h (password_field t 0)
unfolding password_field shift
password_field-append h t = ground (arith, get_elem?-append_add h t 1, slice-append_add h t 2 4)

-- Reading a password at the seam of an append is reading it at the start of what follows.
parse_password-append : (h t : Bytes) → parse_password (h ++ t) (length h) ≡ parse_password t 0
unfolding parse_password
parse_password-append h t = elim (Result-cases (password_field t 0)) [
  | inl (f, e) ↦
      unfold shift in
      ground (
        arith,
        e,
        get_elem?-append_add h t 0,
        password_field-append h t,
        slice-append_add h t f.0 (f.0 + f.1),
      )
  | inr (x, e) ↦
      unfold shift in ground (arith, e, get_elem?-append_add h t 0, password_field-append h t)
]

-- the password choice, for a password in the short form or in the two-byte form
parse_password-choice :
    (p rest : Bytes)
    → (length p < 128) ⊎ ((256 ≤ length p) × (length p < 65536))
    → parse_password (0x80 ∷ (ber_length (length p) ++ p ++ rest)) 0 ≡ ok (decode_replace p)
unfolding parse_password password_field check_bytes
parse_password-choice p rest h = ground (arith, take-append_self p rest)

abbrev choice : Bytes → Bytes → Bytes
choice p rest = 0x80 ∷ (ber_length (length p) ++ p ++ rest)

abbrev before_choice : Bytes → Bytes → Bytes
before_choice h u = h ++ 2 ∷ 1 ∷ 3 ∷ 4 ∷ length u ∷ u

regroup : (h u p rest : Bytes) → h ++ bind_body u p rest ≡ before_choice h u ++ choice p rest
regroup h u p rest = simp append_assoc

length-before_choice : (h u : Bytes) → length h + 5 + length u ≡ length (before_choice h u)
length-before_choice h u = omega (arith, length-append {0} h (2 ∷ 1 ∷ 3 ∷ 4 ∷ length u ∷ u))

password_behind_user :
    (h u p rest : Bytes)
    → parse_password (h ++ bind_body u p rest) (length h + 5 + length u)
      ≡ parse_password (choice p rest) 0
password_behind_user h u p rest =
    rw (regroup h u p rest, length-before_choice h u)
      (parse_password-append (before_choice h u) (choice p rest))

user_at_version :
    (h u p rest : Bytes)
    → slice (length h + 5) (length h + 5 + length u) (h ++ bind_body u p rest) ≡ u
user_at_version h u p rest =
    rw (sum h u) (slice-append_add h (bind_body u p rest) 5 (5 + length u) ∙ cut)
  where
    sum : (h u : Bytes) → length h + 5 + length u ≡ length h + (5 + length u)
    sum h u = omega arith

    five : 5 + length u - 5 ≡ length u
    five = omega arith

    cut : slice 5 (5 + length u) (bind_body u p rest) ≡ u
    cut = rw five (take-append_self u (choice p rest))

parse_credentials-bind :
    (h u p rest : Bytes)
    → parse_credentials (h ++ bind_body u p rest) (length h)
      ≡ (decode_replace u, result_or [] (parse_password (choice p rest) 0))
unfolding parse_credentials check_bytes
parse_credentials-bind h u p rest = ground (
  arith,
  get_elem?-append_add h (bind_body u p rest) 4,
  user_at_version h u p rest,
  password_behind_user h u p rest,
)

offset_positive : (n : ℕ) → ltb 0 (suc n) ≡ true
offset_positive n = ground arith

parse_ldap_packet-bind :
    (outer mid inner : ℕ) (u p rest : Bytes)
    → mid ≢ 3
    → parse_ldap_packet (bind_header outer mid inner ++ bind_body u p rest)
      ≡ (decode_replace u, result_or [] (parse_password (choice p rest) 0))
unfolding parse_ldap_packet
parse_ldap_packet-bind outer mid inner u p rest h =
    rw (find-bind_header outer mid inner (4 ∷ length u ∷ (u ++ choice p rest)) h, parse_ldap_packet)
      (rw (offset_positive _) (parse_credentials-bind (bind_header outer mid inner) u p rest))

-- From a simple bind request whose message id is one byte other than 3, whose name is shorter than 128
-- bytes and whose password has a length below 128, or of 256 up to 65535, `parse_ldap_packet` returns
-- exactly the decoded name and the decoded password, whatever the outer lengths below 65536 are and
-- whatever bytes follow the password.
pub parse-bind :
    (outer mid inner : ℕ) (u p rest : Bytes)
    → (outer < 65536) × ((inner < 65536) × ((mid < 128) × (length u < 128)))
    → mid ≢ 3
    → (length p < 128) ⊎ ((256 ≤ length p) × (length p < 65536))
    → parse_ldap_packet (bind_header outer mid inner ++ bind_body u p rest)
      ≡ (decode_replace u, decode_replace p)
parse-bind outer mid inner u p rest short h fits =
    rw (parse_ldap_packet-bind outer mid inner u p rest h) (rw (parse_password-choice p rest fits))

-- A password of 128 up to 255 bytes has its length in the form 0x81, which the code does not know:
-- it takes 0x81 for the length, and what it returns as the password is the real length byte and the
-- 128 bytes behind it.
pub parse-bind_one_byte_length :
    (outer mid inner : ℕ) (u p rest : Bytes)
    → mid ≢ 3
    → 128 ≤ length p
    → length p < 256
    → parse_ldap_packet (bind_header outer mid inner ++ bind_body u p rest)
      ≡ (decode_replace u, decode_replace (length p ∷ take 128 (p ++ rest)))
unfolding parse_password password_field check_bytes
parse-bind_one_byte_length outer mid inner u p rest h l g =
    rw (parse_ldap_packet-bind outer mid inner u p rest h) (ground arith)
