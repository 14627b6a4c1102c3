-- ===== src/Ssh/Tests.antt =====
-- The theorem on the interactive session at concrete keys.
use honeypots.Prelude.{◌≡◌, refl, List, [], ◌∷◌, ◌++◌}
use honeypots.Python.Bytes.{Bytes, Text, codes, bytes_eq, strip}
use honeypots.Python.Utf8.{decode_replace}
use honeypots.Python.Result.{ok}
use honeypots.Session.{sent}
use honeypots.Base.Samples.{server, peer}
use honeypots.Ssh.Keys.{has_escape, is_complete}
use honeypots.Ssh.{welcome, handle_interactive_session}
use honeypots.Ssh.Shell.{commands, response_to}
use honeypots.Ssh.Keystrokes.{keystrokes, echoed}
use honeypots.Ssh.Typing.{all_keystrokes, times, transcript, line_entry, session-lines}

abbrev lines : List (Text × List Bytes)
lines = (codes "now", codes "l" ∷ codes "s" ∷ []) ∷ []

abbrev exit : List Bytes
exit = codes "ex" ∷ codes "it" ∷ []

session-lines_example :
    handle_interactive_session server peer
      (times lines (codes "later" ∷ []))
      (all_keystrokes lines (keystrokes exit []))
    ≡ (
      ok tt,
      [],
      sent welcome
          ∷ (transcript server peer lines
              ++ (sent (codes "$ ") ∷ (echoed exit ++ line_entry server peer (codes "exit")))),
    )
unfolding has_escape is_complete bytes_eq decode_replace strip
session-lines_example =
    session-lines server peer (codes "later") [] lines exit []
      ((((refl, refl, refl), ((refl, refl, refl), tt)), refl), tt)
      ((refl, refl, refl), ((refl, refl, refl), tt)) refl

-- the shell at some lines
responses :
    (response_to (codes "now") (codes "pwd") ≡ codes "/")
    × (response_to (codes "now") (codes "uname -v") ≡ codes "#26-Ubuntu SMP now")
    × (response_to (codes "now") (codes "cd -x ~/a") ≡ codes "sh: 1: cd: can't cd to /root/a")
    × (response_to (codes "now") (codes "vi") ≡ codes "vi: command not found")
unfolding response_to commands
responses = (refl, refl, refl, refl)
