-- ===== src/Pjl/Echo.antt =====
-- The answer of pjl_server.py to an echo.
use honeypots.Prelude.{◌≡◌, refl, ap, ◌∙◌, arith, some, [], ◌∷◌, ◌++◌}
use honeypots.Python.Bytes.{Bytes, Text, codes, lower, replace, starts_with}
use honeypots.Python.Utf8.{decode_replace}
use honeypots.Python.Split.{Lacks, replace_head, replace_other}
use honeypots.Python.Result.{ok}
use honeypots.Python.Value.{Fields, text, int, item, word, fields, dict, update}
use honeypots.Session.{logged, sent, closed}
use honeypots.Base.{Server, Peer, log, server_items}
use honeypots.Helper.{check_bytes}
use honeypots.Pjl.{State, universal_exit, without_exit, answer, data_received}

abbrev pub query_entry : Server → Peer → Text → Fields
query_entry q peer command =
    update
      (fields (
        word "action" "query"
        ∷ item "status" (text (codes "success"))
        ∷ item "src_ip" (text peer.host)
        ∷ item "src_port" (int peer.port)
        ∷ item "data" (dict (fields (item "command" (text command) ∷ [])))
        ∷ []))
      (server_items q)

without_exit_plain : (t : Bytes) → Lacks 0x1b t → without_exit t ≡ t
unfolding without_exit
without_exit_plain [] h = unfold replace in refl
without_exit_plain (c ∷ t) h =
    replace_other 0x1b c (codes "%-12345X") [] t h.0 ∙ ap (◌∷◌ c) (without_exit_plain t h.1)

without_exit-job : (t : Bytes) → Lacks 0x1b t → without_exit (universal_exit ++ t) ≡ t
unfolding without_exit
without_exit-job t h = replace_head 0x1b (codes "%-12345X") [] t ∙ without_exit_plain t h

answer-echo :
    (t : Bytes) → answer (codes "@PJL ECHO " ++ t) ≡ some (codes "@PJL " ++ (t ++ 0x1b ∷ []))
unfolding answer lower starts_with
answer-echo t = refl

-- A job that enters the printer language and asks for an echo is answered by its text and an
-- escape, and logged as a query with the command behind the entering sequence; the connection is
-- closed. The text is any without an escape.
pub data_received-echo :
    (q : Server) (peer : Peer) (t : Bytes) (s : State)
    → Lacks 0x1b t
    → data_received q peer (universal_exit ++ (codes "@PJL ECHO " ++ t)) s ≡ (
      ok tt,
      s,
      sent (codes "@PJL " ++ (t ++ 0x1b ∷ []))
          ∷ logged (query_entry q peer (decode_replace (codes "@PJL ECHO " ++ t)))
          ∷ closed
          ∷ [],
    )
unfolding data_received log check_bytes
data_received-echo q peer t s h =
    rw
      (
        without_exit-job (codes "@PJL ECHO " ++ t) (
          omega arith,
          (
            omega arith,
            (
              omega arith,
              (
                omega arith,
                (
                  omega arith,
                  (omega arith, (omega arith, (omega arith, (omega arith, (omega arith, h))))),
                ),
              ),
            ),
          ),
        ),
        answer-echo t,
      )
      refl
