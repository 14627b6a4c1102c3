-- ===== src/Base/Samples.antt =====
-- A server and a peer for the tests.
use honeypots.Python.Bytes.{codes}
use honeypots.Base.{Server, Peer}

abbrev pub server : Server
server = record {
  name = codes "server";
  ip = codes "0.0.0.0";
  port = 389;
  username = codes "test";
  password = codes "pw";
  options = codes "";
}

abbrev pub peer : Peer
peer = record { host = codes "10.0.0.1"; port = 4000 }
