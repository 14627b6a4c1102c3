-- ===== src/Ssh/Typing.antt =====
-- An interactive session of ssh_server.py, as a client types it.
use honeypots.Prelude.{
  ◌≡◌, refl, ◌∙◌, false, Bool-cases, inl, inr, ◌||◌, if◌then◌else◌, List, [], ◌∷◌, ◌++◌, All,
  append_assoc,
}
use honeypots.Python.Bytes.{Bytes, Text, codes, bytes_eq}
use honeypots.Python.Result.{ok}
use honeypots.Session.{Effect, sent, logged}
use honeypots.Base.{Server, Peer, log, server_items}
use honeypots.Ssh.Keys.{Arrival}
use honeypots.Ssh.Shell.{respond, response_to, is_cancelled}
use honeypots.Python.Utf8.{encode}
use honeypots.Python.Value.{text, int, dict, item, word, fields, update}
use honeypots.Ssh.{welcome, turns, handle_interactive_session}
use honeypots.Ssh.Keystrokes.{IsKey, typed, keystrokes, echoed, receive_line-keystrokes}

-- The log entry of a line.
abbrev pub line_entry : Server → Peer → Text → List Effect
line_entry q peer line =
    logged (
      update
        (fields (
          word "action" "interactive"
          ∷ item "src_ip" (text peer.host)
          ∷ item "src_port" (int peer.port)
          ∷ item "data" (dict (fields (item "command" (text line) ∷ [])))
          ∷ []))
        (server_items q))
    ∷ []

-- The answer of the shell to a line: none where it is empty or ends in control-C, and otherwise one
-- line.
abbrev pub answer : Text → Text → List Effect
answer now line =
    if bytes_eq line [] || is_cancelled line
    then []
    else sent (encode (response_to now line ++ codes "\r\n")) ∷ []

-- What the outside sees of the lines, each with the time of its answer.
abbrev pub transcript : Server → Peer → List (Text × List Bytes) → List Effect
transcript q peer [] = []
transcript q peer ((now, keys) ∷ ls) =
    sent (codes "$ ")
    ∷ (echoed keys
        ++ (line_entry q peer (typed keys) ++ (answer now (typed keys) ++ transcript q peer ls)))

abbrev pub times : List (Text × List Bytes) → List Text → List Text
times [] clock = clock
times ((now, keys) ∷ ls) clock = now ∷ times ls clock

abbrev pub all_keystrokes : List (Text × List Bytes) → List Arrival → List Arrival
all_keystrokes [] rest = rest
all_keystrokes ((now, keys) ∷ ls) rest = keystrokes keys (all_keystrokes ls rest)

abbrev pub AreLines : List (Text × List Bytes) → Type 0
AreLines = All (λ l. All IsKey l.1 × (bytes_eq (typed l.1) (codes "exit") ≡ false))

turns-exit :
    (q : Server) (peer : Peer) (now : Text) (clock : List Text) (keys : List Bytes)
    (rest : List Arrival)
    → All IsKey keys
    → typed keys ≡ codes "exit"
    → turns q peer (now ∷ clock) (keystrokes keys rest)
      ≡ (ok tt, rest, sent (codes "$ ") ∷ (echoed keys ++ line_entry q peer (codes "exit")))
unfolding turns bytes_eq log
turns-exit q peer now clock keys rest all e = rw (receive_line-keystrokes keys rest all, e) refl

respond-stateless :
    (now line : Text) (s : List Arrival) → respond now line s ≡ (ok tt, s, answer now line)
unfolding respond
respond-stateless now line s = elim (Bool-cases (bytes_eq line [] || is_cancelled line)) [
  | inl e ↦ rw e refl
  | inr e ↦ rw e refl
]

-- one turn of the loop
turns-line :
    (q : Server) (peer : Peer) (now : Text) (clock : List Text) (keys : List Bytes)
    (rest : List Arrival)
    → All IsKey keys
    → bytes_eq (typed keys) (codes "exit") ≡ false
    → turns q peer (now ∷ clock) (keystrokes keys rest) ≡ (
      (turns q peer clock rest).0,
      (turns q peer clock rest).1,
      sent (codes "$ ")
          ∷ (echoed keys
              ++ (line_entry q peer (typed keys)
                  ++ (answer now (typed keys) ++ (turns q peer clock rest).2))),
    )
unfolding turns log
turns-line q peer now clock keys rest all e =
    rw (receive_line-keystrokes keys rest all, e, respond-stateless now (typed keys) rest) refl

turns-lines :
    (q : Server) (peer : Peer) (now : Text) (clock : List Text) (ls : List (Text × List Bytes))
    (keys : List Bytes) (rest : List Arrival)
    → AreLines ls
    → All IsKey keys
    → typed keys ≡ codes "exit"
    → turns q peer (times ls (now ∷ clock)) (all_keystrokes ls (keystrokes keys rest)) ≡ (
      ok tt,
      rest,
      transcript q peer ls
          ++ (sent (codes "$ ") ∷ (echoed keys ++ line_entry q peer (codes "exit"))),
    )
turns-lines q peer now clock [] keys rest lines all e = turns-exit q peer now clock keys rest all e
turns-lines q peer now clock ((n, ks) ∷ ls) keys rest lines all e =
    turns-line q peer n (times ls (now ∷ clock)) ks (all_keystrokes ls (keystrokes keys rest))
      lines.0.0 lines.0.1
    ∙ rw (turns-lines q peer now clock ls keys rest lines.1 all e) (simp append_assoc)

-- A client of the interactive session that types any number of lines and then `exit`, in time, sees
-- the welcome, and for every line the prompt, its own keys, and the one line that the shell answers,
-- or nothing where the line is empty or ends in control-C; every line, the last one too, is logged as
-- one entry with that line, in order, and the session ends. A line is any keys
-- that hold no escape sequence and do not end a line or the session, up to a return.
pub session-lines :
    (q : Server) (peer : Peer) (now : Text) (clock : List Text) (ls : List (Text × List Bytes))
    (keys : List Bytes) (rest : List Arrival)
    → AreLines ls
    → All IsKey keys
    → typed keys ≡ codes "exit"
    → handle_interactive_session q peer
        (times ls (now ∷ clock))
        (all_keystrokes ls (keystrokes keys rest))
      ≡ (
        ok tt,
        rest,
        sent welcome
            ∷ (transcript q peer ls
                ++ (sent (codes "$ ") ∷ (echoed keys ++ line_entry q peer (codes "exit")))),
      )
unfolding handle_interactive_session
session-lines q peer now clock ls keys rest lines all e =
    rw (turns-lines q peer now clock ls keys rest lines all e) refl
