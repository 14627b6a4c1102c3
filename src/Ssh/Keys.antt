-- ===== src/Ssh/Keys.antt =====
-- `_receive_line` of ssh_server.py: the keys that a client sends, up to the end of a line.
use honeypots.Prelude.{
  ℕ, zero, suc, ◌-◌, Bool, false, ◌&&◌, ◌||◌, Option, none, some, List, [], ◌∷◌, ◌++◌, leb, ◌==◌,
  if◌then◌else◌,
}
use honeypots.Python.Bytes.{Bytes, Text, codes, bytes_eq, strip}
use honeypots.Python.Utf8.{decode_replace}
use honeypots.Python.Result.{eof_error, timeout_error}
use honeypots.Session.{Handler, Outcome, prepend, raise, pure, write, ◌>>◌, skip}
use mathlib.Core.Option

-- What one call of `recv` gives: bytes, none where the client is gone, or a timeout.
pub data Arrival : Type 0 where
  chunk : Bytes → Arrival
  timeout : Arrival

abbrev between : ℕ → ℕ → ℕ → Bool
between low high c = leb low c && leb c high

-- the end of a sequence, then the intermediate bytes, then the parameter bytes, in front of it
unfoldable pub final_length : Bytes → Option ℕ
final_length [] = none
final_length (c ∷ cs) = if between 0x40 0x7e c then some 1 else none

unfoldable pub intermediate_length : Bytes → Option ℕ
unfolding final_length
intermediate_length [] = none
intermediate_length (c ∷ cs) =
    let more = Option.map suc (intermediate_length cs) in
    if between 0x20 0x2f c then more else final_length (c ∷ cs)

unfoldable pub parameter_length : Bytes → Option ℕ
unfolding intermediate_length
parameter_length [] = none
parameter_length (c ∷ cs) =
    let more = Option.map suc (parameter_length cs) in
    if between 0x30 0x3f c then more else intermediate_length (c ∷ cs)

-- The length of a match of `ANSI_REGEX` at the head. Its classes are disjoint, so that nothing is
-- tried twice.
unfoldable pub sequence_length : Bytes → Option ℕ
unfolding parameter_length
sequence_length [] = none
sequence_length (c ∷ []) = none
sequence_length (c ∷ d ∷ cs) =
    if c == 0x1b
    then (if between 0x40 0x5f d then Option.map (λ n. suc (suc n)) (parameter_length cs) else none)
    else if between 0x80 0x9f c
    then Option.map suc (parameter_length (d ∷ cs))
    else none

-- The sequence is matched at `skip` = 0; otherwise that many of its bytes are still to be passed.
unfoldable pub strip_from : ℕ → Bytes → Bytes
unfolding sequence_length
strip_from _ [] = []
strip_from (suc k) (c ∷ cs) = strip_from k cs
strip_from zero (c ∷ cs) = elim (sequence_length (c ∷ cs)) [
  | none ↦ c ∷ strip_from 0 cs
  | some n ↦ strip_from (n - 1) cs
]

-- `ANSI_REGEX.sub(b"", data)`
unfoldable pub strip_sequences : Bytes → Bytes
unfolding strip_from
strip_sequences = strip_from 0

unfoldable pub has_escape : Bytes → Bool
has_escape [] = false
has_escape (c ∷ cs) = c == 0x1b || has_escape cs

-- whether the line ends in a return, a newline or control-C
unfoldable pub is_complete : Bytes → Bool
is_complete [] = false
is_complete (c ∷ []) = c == 13 || c == 10 || c == 3
is_complete (c ∷ d ∷ cs) = is_complete (d ∷ cs)

abbrev pub is_closing : Bytes → Bool
is_closing recv = bytes_eq recv [] || bytes_eq recv (4 ∷ [])

-- What is added to the line. The answer to the key itself comes before; `replace` of the deletions
-- does nothing, since its result is dropped.
unfoldable pub edited : Bytes → Bytes
unfolding strip_sequences has_escape bytes_eq
edited recv =
    if bytes_eq recv (3 ∷ []) || bytes_eq recv (13 ∷ [])
    then recv
    else if has_escape recv
    then strip_sequences recv
    else recv

unfoldable pub answer_key : {S : Type 0} → Bytes → Handler S (Unit {0})
unfolding bytes_eq
answer_key recv =
    if bytes_eq recv (3 ∷ [])
    then write (codes "^C\r\n")
    else if bytes_eq recv (13 ∷ [])
    then write (10 ∷ [])
    else skip

-- the echo of what was added
abbrev echo : {S : Type 0} → Bytes → Handler S (Unit {0})
echo added = if bytes_eq added [] then skip else write added

-- The loop; where the arrivals end, the client is gone.
unfoldable pub receive_from : Bytes → List Arrival → Outcome (List Arrival) Text
unfolding is_complete edited answer_key bytes_eq
receive_from line [] =
    if is_complete line
    then pure (decode_replace (strip line)) []
    else (do write (codes "^D\r\n"); raise eof_error) []
receive_from line (timeout ∷ rest) =
    if is_complete line
    then pure (decode_replace (strip line)) (timeout ∷ rest)
    else raise timeout_error rest
receive_from line (chunk recv ∷ rest) =
    let more = receive_from (line ++ edited recv) rest in
    if is_complete line
    then pure (decode_replace (strip line)) (chunk recv ∷ rest)
    else if is_closing recv
    then (do write (codes "^D\r\n"); raise eof_error) rest
    else prepend ((do answer_key recv; echo (edited recv)) rest).2 more

unfoldable pub receive_line : Handler (List Arrival) Text
unfolding receive_from
receive_line = receive_from []
