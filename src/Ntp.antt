-- ===== src/Ntp.antt =====
-- ntp_server.py: the datagram handler. Times are floats, so what `system_time_to_ntp` makes of the
-- present time is an argument, in its two parts.
pub mod Reply
use honeypots.Prelude.{
  ℕ, ◌+◌, ◌*◌, ◌/◌, ◌%◌, ◌^◌, Option, none, some, List, [], ◌∷◌, ◌++◌, ltb, replicate,
  if◌then◌else◌,
}
use honeypots.Python.Bytes.{Bytes, Text, codes}
use honeypots.Python.Result.{Exn, Result, ok, raised, index, struct_error, index_error}
use honeypots.Python.Struct.{pack_q}
use honeypots.Python.Value.{Value, text, int, item, word, fields, dict}
use honeypots.Session.{Handler, ◌>>=◌, ◌>>◌, write, skip, pure}
use honeypots.Base.{Server, Peer, log, log_connection}

-- The time in seconds, and the fraction in units of 2 ^ -32.
pub record Now : Type 0 where
  pub seconds : ℕ
  pub fraction : ℕ

-- `i + f` of `system_time_to_ntp`
abbrev pub timestamp : Now → ℕ
timestamp now = now.seconds * 2 ^ 32 + now.fraction

-- the format "b" and the format "Q" refuse what does not fit
abbrev pack_signed : ℕ → Result Bytes
pack_signed n = if ltb n 128 then ok (n ∷ []) else raised struct_error

abbrev pack_long : ℕ → Result Bytes
pack_long n = if ltb n (2 ^ 64) then ok (pack_q n) else raised struct_error

unfoldable pub response : Now → Bytes → Result Bytes
response now data_ = elim (index data_ 1) [
  | raised e ↦ raised e
  | ok stratum ↦ elim (index data_ 2) [
    | raised e ↦ raised e
    | ok poll ↦ elim (index data_ 3) [
      | raised e ↦ raised e
      | ok precision ↦ elim (index data_ 10) [
        | raised e ↦ raised e
        | ok echoed ↦ elim (pack_signed precision) [
          | raised e ↦ raised e
          | ok signed ↦ elim (pack_long (timestamp now)) [
            | raised e ↦ raised e
            | ok stamp ↦ ok (
                26
                ∷ stratum
                ∷ poll
                ∷ (signed ++ (replicate 20 0 ++ (pack_q echoed ++ (pack_q 0 ++ stamp)))))
          ]
        ]
      ]
    ]
  ]
]

-- `data[0] >> 3 & 0x7` and `data[0] & 0x7`, where there is a first byte
abbrev pub version_of : Bytes → Value
version_of [] = text (codes "UnKnown")
version_of (b ∷ bs) = int (b / 8 % 8)

abbrev pub mode_of : Bytes → Value
mode_of [] = text (codes "UnKnown")
mode_of (b ∷ bs) = int (b % 8)

-- The answer, and the status that is logged: both exceptions that can be raised are caught.
abbrev respond : {S : Type 0} → Result Bytes → Handler S Text
respond (raised e) = pure (codes "failed")
respond (ok reply) = do write reply; pure (codes "success")

unfoldable pub datagram_received : {S : Type 0} → Server → Now → Bytes → Peer → Handler S (Unit {0})
unfolding log
datagram_received q now data_ addr = do
  log_connection q addr
  status ← respond (response now data_)
  log q (
      word "action" "query"
      ∷ item "status" (text status)
      ∷ item "src_ip" (text addr.host)
      ∷ item "src_port" (int addr.port)
      ∷ item "data"
          (dict (fields (item "version" (version_of data_) ∷ item "mode" (mode_of data_) ∷ [])))
      ∷ [])
