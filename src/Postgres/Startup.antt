-- ===== src/Postgres/Startup.antt =====
-- The messages of a client, and what the server reads in them.
use honeypots.Prelude.{
  ◌+◌, ◌-◌, ◌≡◌, refl, ap, List, [], ◌∷◌, ◌++◌, length, drop, All, All-append, drop-append_self,
  length-append, arith,
}
use honeypots.Python.Bytes.{Bytes, Text, slice, split}
use honeypots.Python.Utf8.RoundTrip.{IsAscii, decode_ascii}
use honeypots.Python.Split.{Lacks, split-append, slice-middle}
use honeypots.Python.Result.{ok}
use honeypots.Postgres.Message.{pairs, dict_onto, read_variables, read_password}

-- The parameters of a startup message, each text followed by a zero.
abbrev pub parameters : List (Text × Text) → Bytes
parameters [] = []
parameters ((k, v) ∷ ps) = k ++ 0 ∷ (v ++ 0 ∷ parameters ps)

-- ASCII texts with no zero in them
abbrev pub IsPlain : Text → Type 0
IsPlain t = IsAscii t × Lacks 0 t

abbrev pub ArePlain : List (Text × Text) → Type 0
ArePlain = All (λ kv. IsPlain kv.0 × IsPlain kv.1)

-- The length and the protocol version, the parameters, and a zero.
abbrev pub startup_message : Bytes → List (Text × Text) → Bytes
startup_message header ps = header ++ (parameters ps ++ 0 ∷ [])

-- The type, the length, the password and a zero.
abbrev pub password_message : Bytes → Text → Bytes
password_message length_ p = 112 ∷ (length_ ++ (p ++ 0 ∷ []))

parameters-IsAscii : (ps : List (Text × Text)) → ArePlain ps → IsAscii (parameters ps)
parameters-IsAscii [] h = tt
parameters-IsAscii ((k, v) ∷ ps) h =
    All-append _ k _ h.0.0.0
      (omega arith, All-append _ v _ h.0.1.0 (omega arith, parameters-IsAscii ps h.1))

pairs-parameters :
    (ps : List (Text × Text)) → ArePlain ps → pairs (split (0 ∷ []) (parameters ps)) ≡ ps
unfolding pairs
pairs-parameters [] h = unfold split in refl
pairs-parameters ((k, v) ∷ ps) h =
    rw (split-append 0 [] k (v ++ 0 ∷ parameters ps) h.0.0.1)
      (rw (split-append 0 [] v (parameters ps) h.0.1.1) (ap (◌∷◌ (k, v)) (pairs-parameters ps h.1)))

slice-startup :
    (header : Bytes) (ps : List (Text × Text))
    → length header ≡ 8
    → slice 8 (length (startup_message header ps) - 1) (startup_message header ps) ≡ parameters ps
slice-startup header ps h = rw (end, ← h) (slice-middle header (parameters ps) (0 ∷ []))
  where
    end : length (startup_message header ps) - 1 ≡ length header + length (parameters ps)
    end = omega (
      arith,
      length-append {0} header (parameters ps ++ 0 ∷ []),
      length-append {0} (parameters ps) (0 ∷ []),
    )

startup_message-IsAscii :
    (header : Bytes) (ps : List (Text × Text))
    → IsAscii header
    → ArePlain ps
    → IsAscii (startup_message header ps)
startup_message-IsAscii header ps a h =
    All-append _ header _ a (All-append _ (parameters ps) _ (parameters-IsAscii ps h) (omega arith))

-- The variables that are read out of a startup message are the dictionary of its parameters.
pub read_variables-startup :
    (header : Bytes) (ps : List (Text × Text))
    → length header ≡ 8
    → IsAscii header
    → ArePlain ps
    → read_variables (startup_message header ps) ≡ ok (dict_onto [] ps)
unfolding read_variables
read_variables-startup header ps l a h =
    rw (decode_ascii (startup_message header ps) (startup_message-IsAscii header ps a h))
      (rw (slice-startup header ps l) (rw (pairs-parameters ps h)))

pub read_password-message :
    (length_ : Bytes) (p : Text)
    → length length_ ≡ 4
    → IsAscii length_
    → IsPlain p
    → read_password (password_message length_ p) ≡ ok p
unfolding read_password
read_password-message length_ p l a h =
    rw (decode_ascii (password_message length_ p) ascii) (rw (behind, split-append 0 [] p [] h.1))
  where
    ascii : IsAscii (password_message length_ p)
    ascii = (omega arith, All-append _ length_ _ a (All-append _ p _ h.0 (omega arith)))

    behind : drop 4 (length_ ++ (p ++ 0 ∷ [])) ≡ p ++ 0 ∷ []
    behind = rw (← l) (drop-append_self length_ (p ++ 0 ∷ []))
