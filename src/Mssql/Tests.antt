-- ===== src/Mssql/Tests.antt =====
-- The theorems on mssql_server.py at concrete packets.
use honeypots.Prelude.{◌≡◌, refl, arith, some, [], ◌∷◌, ◌++◌, replicate}
use honeypots.Python.Bytes.{Bytes, codes}
use honeypots.Python.Result.{ok}
use honeypots.Session.{logged, sent}
use honeypots.Base.Login.{login_entry}
use honeypots.Base.Samples.{server, peer}
use honeypots.Mssql.Password.{obfuscate, password_of, password_of-obfuscate}
use honeypots.Mssql.{data_received}
use honeypots.Mssql.Login.{IsLoginPacket, wide, login_answer, data_received-login}

password_of-obfuscate_example : password_of (obfuscate (codes "paZs")) ≡ codes "pas"
password_of-obfuscate_example = password_of-obfuscate (codes "paZs") (ground arith)

-- The fields begin at 50 and 54 behind the header.
abbrev packet : Bytes
packet =
    0x10
    ∷ (replicate 47 1
        ++ (50
            ∷ 0
            ∷ 2
            ∷ 0
            ∷ 54
            ∷ 0
            ∷ 2
            ∷ 0
            ∷ (1 ∷ 1 ∷ wide (codes "sa") ++ obfuscate (codes "pZ"))))

packet-IsLoginPacket : IsLoginPacket packet (codes "sa") (codes "pZ")
packet-IsLoginPacket = record {
  kind = refl;
  user_at = (50, 2);
  user_position = refl;
  user = refl;
  password_at = (54, 2);
  password_position = refl;
  password = refl;
}

data_received-login_example : data_received server peer packet (some 1) ≡ (
  ok tt,
  some 1,
  logged (login_entry server (codes "sa") (codes "p") peer.host peer.port) ∷ sent login_answer ∷ [],
)
data_received-login_example =
    data_received-login server peer packet (codes "sa") (codes "pZ") packet-IsLoginPacket
      (omega arith, omega arith) (ground arith)
