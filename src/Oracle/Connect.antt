-- ===== src/Oracle/Connect.antt =====
-- What oracle_server.py reads from the connect descriptor of a client.
use honeypots.Prelude.{ℕ, Option, List, if◌then◌else◌, ◌<◌, ◌≢◌, some, [], ◌∷◌, ◌++◌, All}
use honeypots.Python.Bytes.{Bytes, Text, codes, starts_with}
use honeypots.Oracle.Descriptor.{Names}

abbrev pub IsCharacter : ℕ → Type 0
IsCharacter c = (c < 0x80) × (c ≢ 40) × (c ≢ 41) × (c ≢ 61) × (c ≢ 0)

-- A name of ASCII characters without a parenthesis, an equals sign or a zero.
abbrev pub IsName : Text → Type 0
IsName t = (t ≢ []) × All IsCharacter t

-- The parts of a descriptor: an attribute with its value, the begin of a group, the end of one.
pub data Part : Type 0 where
  group : Text → Part
  value : Text → Text → Part
  close : Part

abbrev pub print : List Part → Bytes
print [] = []
print (group name ∷ ps) = 40 ∷ (name ++ 61 ∷ print ps)
print (value name t ∷ ps) = 40 ∷ (name ++ 61 ∷ (t ++ 41 ∷ print ps))
print (close ∷ ps) = 41 ∷ print ps

-- The names are characters without an equals sign, and no value is empty.
abbrev pub IsPart : Part → Type 0
IsPart (group name) = All IsCharacter name
IsPart (value name t) = All IsCharacter name × IsName t
IsPart close = Unit {0}

-- the attributes with a value
abbrev pub values : List Part → List (Text × Text)
values [] = []
values (group name ∷ ps) = values ps
values (value name t ∷ ps) = (name, t) ∷ values ps
values (close ∷ ps) = values ps

-- the last value under a name that begins with the key, or else `before`
abbrev pub last_value : Text → Option Text → List (Text × Text) → Option Text
last_value key before [] = before
last_value key before ((name, t) ∷ l) =
    let here = last_value key (some t) l in
    let later = last_value key before l in if starts_with key name then here else later

abbrev runs : List Part → List Bytes
runs [] = []
runs (group name ∷ ps) = (name ++ 61 ∷ []) ∷ runs ps
runs (value name t ∷ ps) = (name ++ 61 ∷ t) ∷ runs ps
runs (close ∷ ps) = runs ps

-- the attributes as they are written
abbrev written : List (Text × Text) → List Bytes
written [] = []
written ((name, t) ∷ l) = (name ++ 61 ∷ t) ∷ written l

abbrev gathered : Names → List (Text × Text) → Names
gathered n l = record {
  service_name = last_value (codes "SERVICE_NAME") n.service_name l;
  program = last_value (codes "PROGRAM") n.program l;
  local_user = last_value (codes "USER") n.local_user l;
}

abbrev AreWritten : List (Text × Text) → Type 0
AreWritten = All (λ kv. All IsCharacter kv.0 × IsName kv.1)
