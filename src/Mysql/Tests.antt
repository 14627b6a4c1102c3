-- ===== src/Mysql/Tests.antt =====
-- The theorems on mysql_server.py at concrete packets, with a hash that keeps its input in view.
use honeypots.Prelude.{◌≡◌, refl, arith, some, List, [], ◌∷◌, ◌++◌, replicate, take}
use honeypots.Python.Bytes.{Bytes, codes, bytes_eq}
use honeypots.Python.Utf8.{decode_replace}
use honeypots.Python.Result.{ok}
use honeypots.Session.{logged, sent}
use honeypots.Base.Samples.{server, peer}
use honeypots.Helper.{check_bytes}
use honeypots.Mysql.Packet.{too_many}
use honeypots.Mysql.Packet.Layout.{handshake_response}
use honeypots.Mysql.Scramble.{Word, byte_word, strip_word, scramble, decode}
use honeypots.Mysql.{data_received}
use honeypots.Mysql.Login.{login_entry, data_received_success}

abbrev flags : Bytes
flags = replicate 36 1

abbrev hash : Bytes → Bytes
hash b = take 20 (b ++ replicate 20 0)

abbrev words : List Word
words = byte_word (codes "pw") ∷ []

-- the scramble of `pw` under this hash
abbrev answer : Bytes
answer = scramble hash (codes "pw")

decode-answer : decode hash words answer ≡ some (byte_word (codes "pw"))
unfolding decode scramble bytes_eq strip_word
decode-answer = refl

data_received_success_example :
    data_received hash words server peer
      (handshake_response flags (codes "test") answer [])
      (some 1)
    ≡ (
      ok tt,
      some 1,
      logged (login_entry server peer (codes "success") (codes "test") (codes "pw"))
          ∷ sent too_many
          ∷ [],
    )
unfolding decode_replace scramble check_bytes
data_received_success_example =
    data_received_success hash words server peer flags (codes "test") answer [] refl (omega arith)
      refl (byte_word (codes "pw")) decode-answer refl
