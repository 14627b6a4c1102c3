-- ===== src/Imap/Command.antt =====
-- The commands that imap_server.py hands to the library.
use honeypots.Prelude.{ℕ, zero, suc, ◌≡◌, ◌≢◌, refl, ap, false, some, [], ◌∷◌, ◌++◌, All}
use honeypots.Python.Bytes.{Bytes, is_space, word_of, after_word, split_words, strip_left}
use honeypots.Python.Utf8.{decode_replace}
use honeypots.Python.Result.{raised, unauthorized}
use honeypots.Session.{logged}
use honeypots.Base.{Server, Peer}
use honeypots.Base.Login.{check_login_lem, login_entry}
use honeypots.Helper.{check_bytes}
use honeypots.Imap.{Library, run_command, parse_words, parse_command, authenticate_login}

-- Some bytes without a space.
abbrev pub IsWord : Bytes → Type 0
IsWord w = (w ≢ []) × All (λ c. is_space c ≡ false) w

word_of-append : (w rest : Bytes) → All (λ c. is_space c ≡ false) w → word_of (w ++ 32 ∷ rest) ≡ w
unfolding is_space
word_of-append [] rest h = refl
word_of-append (c ∷ w) rest h = rw h.0 (ap (◌∷◌ c) (word_of-append w rest h.1))

after_word-append :
    (w rest : Bytes) → All (λ c. is_space c ≡ false) w → after_word (w ++ 32 ∷ rest) ≡ 32 ∷ rest
unfolding is_space
after_word-append [] rest h = refl
after_word-append (c ∷ w) rest h = rw h.0 (after_word-append w rest h.1)

split_words-space : (m : ℕ) (cs : Bytes) → split_words m (32 ∷ cs) ≡ split_words m cs
unfolding split_words strip_left is_space
split_words-space zero cs = refl
split_words-space (suc m) cs = refl

strip_left-word : (c : ℕ) (cs : Bytes) → is_space c ≡ false → strip_left (c ∷ cs) ≡ c ∷ cs
unfolding strip_left
strip_left-word c cs h = rw h refl

-- The first word comes off.
split_words-word :
    (m : ℕ) (w rest : Bytes)
    → IsWord w
    → split_words (suc m) (w ++ 32 ∷ rest) ≡ w ∷ split_words m rest
unfolding split_words
split_words-word m [] rest h = elim (h.0 refl) [ ]
split_words-word m (c ∷ w) rest h =
    rw (strip_left-word c (w ++ 32 ∷ rest) h.1.0, split_words)
      (rw (word_of-append (c ∷ w) rest h.1, after_word-append (c ∷ w) rest h.1)
        (ap (◌∷◌ (c ∷ w)) (split_words-space m rest)))

split_words_last :
    (c : ℕ) (cs : Bytes) → is_space c ≡ false → split_words 0 (c ∷ cs) ≡ (c ∷ cs) ∷ []
unfolding split_words
split_words_last c cs h = rw (strip_left-word c cs h, split_words) refl

-- A line of a tag, a command and its arguments is dispatched with exactly these, the command in
-- capitals and the arguments as they stand, spaces inside and behind them included; it is logged
-- before where commands are captured.
pub parse_command-line :
    {S : Type 0} (l : Library S) (q : Server) (peer : Peer) (tag command : Bytes) (c : ℕ)
    (rest : Bytes) (s : S)
    → IsWord tag
    → IsWord command
    → is_space c ≡ false
    → parse_command l q peer (tag ++ 32 ∷ (command ++ 32 ∷ (c ∷ rest))) s
      ≡ run_command l q peer tag command (some (c ∷ rest)) s
unfolding parse_command parse_words
parse_command-line l q peer tag command c rest s t k h =
    rw
      (
        split_words-word 1 tag (command ++ 32 ∷ (c ∷ rest)) t,
        split_words-word 0 command (c ∷ rest) k,
        split_words_last c rest h,
      )
      refl

-- A login on IMAP is always refused with the exception that the library expects, after exactly one
-- entry with the decoded name and password.
authenticate_login-entry :
    {S : Type 0} (l : Library S) (q : Server) (peer : Peer) (user password : Bytes) (s : S)
    → authenticate_login l q peer user password s ≡ (
      raised unauthorized,
      s,
      logged (login_entry q (decode_replace user) (decode_replace password) peer.host peer.port)
          ∷ [],
    )
unfolding authenticate_login check_bytes
authenticate_login-entry l q peer user password s =
    rw (check_login_lem q (decode_replace user) (decode_replace password) peer.host peer.port s)
      refl
