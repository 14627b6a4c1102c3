-- ===== src/Smtp/Plain.antt =====
-- A login by AUTH PLAIN on smtp_server.py.
use honeypots.Prelude.{◌≡◌, refl, ap, ◌∙◌, arith, [], ◌∷◌, ◌++◌}
use honeypots.Python.Bytes.{Bytes, Text, codes, split, starts_with, strip}
use honeypots.Python.Utf8.{decode_replace}
use honeypots.Python.Split.{Lacks, split-append, split_last}
use honeypots.Python.Result.{ok}
use honeypots.Session.{logged, sent}
use honeypots.Base.{Server, Peer}
use honeypots.Base.Login.{check_login_lem, login_entry}
use honeypots.Smtp.{Library, plain_login, ext_auth}

-- identity, name and password, separated by zeros
abbrev pub message : Text → Text → Text → Text
message identity username password = identity ++ (0 ∷ (username ++ (0 ∷ password)))

split-message :
    (i u p : Text)
    → Lacks 0 i
    → Lacks 0 u
    → Lacks 0 p
    → split (0 ∷ []) (message i u p) ≡ i ∷ u ∷ p ∷ []
split-message i u p hi hu hp =
    split-append 0 [] i (u ++ (0 ∷ p)) hi
    ∙ ap (◌∷◌ i) (split-append 0 [] u p hu ∙ ap (◌∷◌ u) (split_last 0 [] p hp))

split-plain :
    (encoded : Bytes)
    → Lacks 32 encoded
    → split (codes " ") (codes "PLAIN " ++ encoded) ≡ codes "PLAIN" ∷ encoded ∷ []
split-plain encoded h =
    split-append 32 [] (codes "PLAIN") encoded (omega arith)
    ∙ ap (◌∷◌ (codes "PLAIN")) (split_last 32 [] encoded h)

plain_login-message :
    {S : Type 0} (l : Library S) (q : Server) (peer : Peer) (encoded decoded : Bytes) (i u p : Text)
    (s : S)
    → Lacks 32 encoded
    → l.b64decode (strip encoded) ≡ ok decoded
    → decode_replace decoded ≡ message i u p
    → Lacks 0 i
    → Lacks 0 u
    → Lacks 0 p
    → plain_login l q peer (codes "PLAIN " ++ encoded) s
      ≡ (ok tt, s, logged (login_entry q u p peer.host peer.port) ∷ [])
unfolding plain_login
plain_login-message l q peer encoded decoded i u p s h b d hi hu hp =
    rw (split-plain encoded h, plain_login)
      (rw (b, d, split-message i u p hi hu hp, check_login_lem q u p peer.host peer.port s) refl)

-- AUTH PLAIN with a message of an identity, a name and a password without a zero in them is logged as
-- one login of that name and password, and answered as successful, whether or not they are right.
-- The word behind PLAIN is what `b64decode` takes to that message.
pub ext_auth-plain :
    {S : Type 0} (l : Library S) (q : Server) (peer : Peer) (encoded decoded : Bytes) (i u p : Text)
    (s : S)
    → Lacks 32 encoded
    → l.b64decode (strip encoded) ≡ ok decoded
    → decode_replace decoded ≡ message i u p
    → Lacks 0 i
    → Lacks 0 u
    → Lacks 0 p
    → ext_auth l q peer (codes "PLAIN " ++ encoded) s ≡ (
      ok tt,
      s,
      logged (login_entry q u p peer.host peer.port)
          ∷ sent (l.send_code 235 (codes "Authentication successful."))
          ∷ [],
    )
unfolding ext_auth starts_with
ext_auth-plain l q peer encoded decoded i u p s h b d hi hu hp =
    rw (plain_login-message l q peer encoded decoded i u p s h b d hi hu hp) refl
