-- ===== src/Ssh/Keystrokes.antt =====
-- The keys of a line, as `_receive_line` of ssh_server.py reads and echoes them.
use honeypots.Prelude.{
  ℕ, ◌≡◌, refl, ◌∙◌, arith, true, false, List, [], ◌∷◌, ◌++◌, All, append_assoc,
}
use honeypots.Python.Bytes.{Bytes, Text, bytes_eq, strip}
use honeypots.Python.Utf8.{decode_replace}
use honeypots.Python.Result.{ok}
use honeypots.Session.{Effect, sent}
use honeypots.Ssh.Keys.{
  Arrival, chunk, timeout, is_complete, is_closing, has_escape, edited, answer_key, receive_from,
  receive_line,
}

-- A key: some bytes that do not end a line or the session, and have no escape sequence.
abbrev pub IsKey : Bytes → Type 0
IsKey k = (is_closing k ≡ false) × (has_escape k ≡ false) × (is_complete k ≡ false)

abbrev pub flat : List Bytes → Bytes
flat [] = []
flat (k ∷ ks) = k ++ flat ks

-- The line that is read from the keys up to the return.
abbrev pub typed : List Bytes → Text
typed keys = decode_replace (strip (flat keys ++ 13 ∷ []))

-- what the channel gives for the keys and the return
abbrev pub keystrokes : List Bytes → List Arrival → List Arrival
keystrokes [] rest = chunk (13 ∷ []) ∷ rest
keystrokes (k ∷ ks) rest = chunk k ∷ keystrokes ks rest

-- what the client sees of its own keys
abbrev pub echoed : List Bytes → List Effect
echoed [] = sent (10 ∷ []) ∷ sent (13 ∷ []) ∷ []
echoed (k ∷ ks) = sent k ∷ echoed ks

is_complete-append :
    (line : Bytes) (c : ℕ) (cs : Bytes) → is_complete (line ++ c ∷ cs) ≡ is_complete (c ∷ cs)
unfolding is_complete
is_complete-append [] c cs = refl
is_complete-append (l ∷ []) c cs = refl
is_complete-append (l ∷ m ∷ ls) c cs = is_complete-append (m ∷ ls) c cs

receive_from_complete :
    (line : Bytes) (rest : List Arrival)
    → is_complete line ≡ true
    → receive_from line rest ≡ (ok (decode_replace (strip line)), rest, [])
unfolding receive_from
receive_from_complete line [] h = rw h refl
receive_from_complete line (timeout ∷ rest) h = rw h refl
receive_from_complete line (chunk c ∷ rest) h = rw h refl

receive_from-return :
    (line : Bytes) (rest : List Arrival)
    → is_complete line ≡ false
    → receive_from line (chunk (13 ∷ []) ∷ rest)
      ≡ (ok (decode_replace (strip (line ++ 13 ∷ []))), rest, sent (10 ∷ []) ∷ sent (13 ∷ []) ∷ [])
unfolding receive_from is_complete
receive_from-return line rest h =
    rw (h, receive_from_complete (line ++ 13 ∷ []) rest (is_complete-append line 13 [])) refl

-- A key is neither control-C nor the return.
key-not_control :
    (k : Bytes)
    → is_complete k ≡ false
    → (bytes_eq k (3 ∷ []) ≡ false) × (bytes_eq k (13 ∷ []) ≡ false)
unfolding is_complete bytes_eq
key-not_control [] h = (refl, refl)
key-not_control (c ∷ []) h = ground arith
key-not_control (c ∷ d ∷ cs) h = ground arith

edited-key : (k : Bytes) → IsKey k → edited k ≡ k
unfolding edited
edited-key k h = let (a, b) = key-not_control k h.2 in ground (arith, a, b, h)

answer_key-key : (k : Bytes) (s : List Arrival) → IsKey k → answer_key k s ≡ (ok tt, s, [])
unfolding answer_key
answer_key-key k s h = let (a, b) = key-not_control k h.2 in rw (a, b) refl

key-not_empty : (k : Bytes) → is_closing k ≡ false → bytes_eq k [] ≡ false
key-not_empty k h = ground arith

receive_from-key :
    (line k : Bytes) (rest : List Arrival)
    → is_complete line ≡ false
    → IsKey k
    → receive_from line (chunk k ∷ rest) ≡ (
      (receive_from (line ++ k) rest).0,
      (receive_from (line ++ k) rest).1,
      sent k ∷ (receive_from (line ++ k) rest).2,
    )
unfolding receive_from
receive_from-key line k rest h key =
    rw (h, key.0, answer_key-key k rest key, edited-key k key, key-not_empty k key.0) refl

key-extends : (line k : Bytes) → IsKey k → is_complete (line ++ k) ≡ false
unfolding is_complete bytes_eq
key-extends line [] key = ground arith
key-extends line (c ∷ cs) key = is_complete-append line c cs ∙ key.2

receive_from-keystrokes :
    (line : Bytes) (keys : List Bytes) (rest : List Arrival)
    → is_complete line ≡ false
    → All IsKey keys
    → receive_from line (keystrokes keys rest)
      ≡ (ok (decode_replace (strip (line ++ (flat keys ++ 13 ∷ [])))), rest, echoed keys)
receive_from-keystrokes line [] rest h all = receive_from-return line rest h
receive_from-keystrokes line (k ∷ ks) rest h all =
    receive_from-key line k (keystrokes ks rest) h all.0
    ∙ rw (receive_from-keystrokes (line ++ k) ks rest (key-extends line k all.0) all.1)
        (simp append_assoc)

pub receive_line-keystrokes :
    (keys : List Bytes) (rest : List Arrival)
    → All IsKey keys
    → receive_line (keystrokes keys rest) ≡ (ok (typed keys), rest, echoed keys)
unfolding receive_line is_complete
receive_line-keystrokes keys rest all = receive_from-keystrokes [] keys rest refl all
