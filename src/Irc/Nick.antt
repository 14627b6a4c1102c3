-- ===== src/Irc/Nick.antt =====
-- A nickname on irc_server.py.
use honeypots.Prelude.{◌≡◌, refl, List, [], ◌∷◌}
use honeypots.Python.Bytes.{Bytes, Text, codes, join}
use honeypots.Python.Utf8.{decode_replace}
use honeypots.Python.Result.{ok, raised, unicode_error}
use honeypots.Session.{Effect, logged, debugged, prepend}
use honeypots.Base.{Server, Peer}
use honeypots.Base.Login.{check_login_lem, login_entry}
use honeypots.Helper.{bytes, none_, check_bytes}
use honeypots.Irc.{Library, irc_nick, data_received}

-- A nickname is logged as one login with the password that was given before; a client that gave none
-- is logged with the password `None`.
irc_nick-entry :
    {S : Type 0} (l : Library S) (q : Server) (peer : Peer) (params : List Text) (password : Bytes)
    (s : S)
    → (irc_nick l q peer (bytes password) params s ≡ (
      ok tt,
      s,
      logged (login_entry q (join [] params) (decode_replace password) peer.host peer.port) ∷ [],
    ))
      × (irc_nick l q peer none_ params s ≡ (
        ok tt,
        s,
        logged (login_entry q (join [] params) (codes "None") peer.host peer.port) ∷ [],
      ))
unfolding irc_nick check_bytes
irc_nick-entry l q peer params password s = (
  rw (check_login_lem q (join [] params) (decode_replace password) peer.host peer.port s) refl,
  rw (check_login_lem q (join [] params) (codes "None") peer.host peer.port s) refl,
)

-- Data that the library cannot decode leaves a line in the error log, and nothing is raised.
data_received_undecodable :
    {S : Type 0} (l : Library S) (q : Server) (peer : Peer) (data_ : Bytes) (s s' : S)
    (o : List Effect)
    → l.data_received data_ s ≡ (raised unicode_error, s', o)
    → data_received l q peer data_ s ≡ prepend o (ok tt, s', debugged ∷ [])
unfolding data_received
data_received_undecodable l q peer data_ s s' o h = rw h refl
