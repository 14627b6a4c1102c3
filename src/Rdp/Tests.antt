-- ===== src/Rdp/Tests.antt =====
-- A client that sends credentials.
use honeypots.Prelude.{◌≡◌, refl, [], ◌∷◌, ◌++◌, replicate, All, arith}
use honeypots.Python.Bytes.{Bytes, codes}
use honeypots.Python.Result.{ok}
use honeypots.Session.{entries}
use honeypots.Base.Samples.{server, peer}
use honeypots.Rdp.{Pending, extract_creds, run}
use honeypots.Rdp.Credentials.{client_info, extract_creds-client_info}
use honeypots.Rdp.Unlogged.{IsNotLogin, run_unlogged}

abbrev head : Bytes
head = replicate 15 1 ++ 64 ∷ replicate 11 1

abbrev info : Bytes
info = client_info head (codes "d") (codes "root") (codes "toor") 0 0 (0 ∷ 0 ∷ 0 ∷ 0 ∷ [])

extract_creds-client_info_example : extract_creds info ≡ ok (codes "root", codes "toor")
extract_creds-client_info_example =
    extract_creds-client_info head (codes "d") (codes "root") (codes "toor") (0 ∷ 0 ∷ 0 ∷ 0 ∷ []) 0
      0 refl (ground arith) (ground arith)

abbrev chunks : Pending
chunks = codes "Cookie: mstshash=root\r\n" ∷ [] ∷ [] ∷ [] ∷ info ∷ []

run_unlogged_example : All IsNotLogin (entries (run server peer (ok tt) chunks).2)
run_unlogged_example = run_unlogged server peer (ok tt) chunks
