-- ===== src/Oracle/Tests.antt =====
-- The descriptor of the program's own test, with its groups.
use honeypots.Prelude.{List, [], ◌∷◌}
use honeypots.Python.Bytes.{codes}
use honeypots.Oracle.Connect.{Part, group, value, close}

abbrev parts : List Part
parts =
    group (codes "CONNECT_DATA")
    ∷ value (codes "SERVICE_NAME") (codes "xe")
    ∷ group (codes "CID")
    ∷ value (codes "PROGRAM") (codes "linux_1")
    ∷ value (codes "HOST") (codes "x")
    ∷ value (codes "USER") (codes "bob")
    ∷ close
    ∷ value (codes "CONNECTION_ID") (codes "x")
    ∷ close
    ∷ group (codes "ADDRESS")
    ∷ value (codes "PROTOCOL") (codes "tcp")
    ∷ value (codes "HOST") (codes "127.0.0.1")
    ∷ value (codes "PORT") (codes "1521")
    ∷ close
    ∷ close
    ∷ []
