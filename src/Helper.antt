-- ===== src/Helper.antt =====
-- helper.py: the conversions that every server calls.
pub mod Decode
pub mod Serialize
pub mod Wait
pub mod Request
pub mod Filter
pub mod Sqlite
pub mod Emit
pub mod Loggers
pub mod Kill
mod Tests
use honeypots.Prelude.{ℕ, List, []}
use honeypots.Python.Bytes.{Bytes, Text, codes, str}
use honeypots.Python.Utf8.{decode_replace}

-- What the servers hand to `check_bytes`; `object` carries the text that `str` gives for it.
pub data Argument : Type 0 where
  bytes : Bytes → Argument
  text : Text → Argument
  none_ : Argument
  int : ℕ → Argument
  object : Text → Argument

unfoldable pub check_bytes : Argument → Text
unfolding decode_replace str
check_bytes (bytes b) = decode_replace b
check_bytes (text t) = t
check_bytes none_ = codes "None"
check_bytes (int n) = str n
check_bytes (object s) = s
