-- ===== src/Dhcp/Options.antt =====
-- `parse_options` of dhcp_server.py.
pub mod RoundTrip
use honeypots.Prelude.{
  ℕ, zero, suc, ◌-◌, Option, none, some, List, [], ◌∷◌, ◌++◌, ◌==◌, if◌then◌else◌,
}
use honeypots.Python.Bytes.{Bytes, Text}
use honeypots.Python.Dict.{Dict, put}
use honeypots.Helper.{check_bytes, int, text}

-- the variables of the loop
pub record State : Type 0 where
  pub options : Dict Text
  pub tag_name : Option ℕ
  pub tag_size : Option ℕ
  pub tag : Text

abbrev pub initial : State
initial = record { options = []; tag_name = none; tag_size = none; tag = [] }

abbrev pub stored : State → ℕ → Text → Dict Text
stored s name tag = put s.options (check_bytes (int name)) (check_bytes (text tag))

-- the branch `elif tag_size`, at a size that is not 0
unfoldable pub take_byte : State → ℕ → ℕ → ℕ → State
unfolding put check_bytes
take_byte s name size b =
    let tag = s.tag ++ b ∷ [] in
    if size - 1 == 0
    then record { options = stored s name tag; tag_name = none; tag_size = none; tag = [] }
    else record s { tag_size = some (size - 1); tag = tag }

-- the body of the loop, on the two variables that it tests
unfoldable pub step_at : Option ℕ → Option ℕ → State → ℕ → State
unfolding take_byte
step_at none size s b = record s { tag_name = some b }
step_at (some name) none s b = record s { tag_size = some b; tag = [] }
step_at (some name) (some size) s b = if size == 0 then s else take_byte s name size b

unfoldable pub run : State → Bytes → State
unfolding step_at
run s [] = s
run s (b ∷ bs) = run (step_at s.tag_name s.tag_size s b) bs

unfoldable pub parse_options : Bytes → Dict Text
unfolding run
parse_options raw = (run initial raw).options
