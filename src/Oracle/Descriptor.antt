-- ===== src/Oracle/Descriptor.antt =====
-- `parse_payload` of oracle_server.py.
use honeypots.Prelude.{
  ℕ, Bool, false, ◌||◌, Option, none, some, List, [], ◌∷◌, ◌++◌, drop, ◌==◌, if◌then◌else◌,
}
use honeypots.Python.Bytes.{Bytes, Text, codes, find, split, starts_with}
use honeypots.Python.Utf8.{decode}

-- The three names; `none` is `None`.
pub record Names : Type 0 where
  pub service_name : Option Text
  pub program : Option Text
  pub local_user : Option Text

abbrev pub no_names : Names
no_names = record { service_name = none; program = none; local_user = none }

abbrev is_parenthesis : ℕ → Bool
is_parenthesis c = c == b'(' || c == b')'

abbrev pub keep : Bytes → List Bytes → List Bytes
keep [] runs = runs
keep run runs = run ∷ runs

-- `findall(rb"[^\(\)]+", data)`: the longest runs without a parenthesis
unfoldable pub runs_from : Bytes → Bytes → List Bytes
runs_from run [] = keep run []
runs_from run (c ∷ cs) =
    let closed = runs_from [] cs in
    let longer = runs_from (run ++ c ∷ []) cs in
    if is_parenthesis c then keep run closed else longer

-- `item.endswith(b"=")`
unfoldable pub is_open : Bytes → Bool
is_open [] = false
is_open (c ∷ []) = c == b'='
is_open (c ∷ d ∷ cs) = is_open (d ∷ cs)

unfoldable pub attributes_of : List Bytes → List Bytes
unfolding is_open
attributes_of [] = []
attributes_of (run ∷ runs) =
    let rest = attributes_of runs in if is_open run then rest else run ∷ rest

-- `item.split(b"=", maxsplit=1)`; without the sign there is no value, and the unpacking raises.
unfoldable pub name_and_value : Bytes → Option (Bytes × Bytes)
name_and_value [] = none
name_and_value (c ∷ cs) =
    if c == b'='
    then some ([], cs)
    else elim (name_and_value cs) [ none ↦ none | some (name, value) ↦ some (c ∷ name, value) ]

-- One turn of the loop, or `none` where it raises.
unfoldable pub assign : Names → Bytes → Bytes → Option Names
unfolding starts_with decode
assign n name value =
    if starts_with (codes "SERVICE_NAME") name
    then (elim (decode value) [ none ↦ none | some t ↦ some (record n { service_name = some t }) ])
    else if starts_with (codes "PROGRAM") name
    then (elim (decode value) [ none ↦ none | some t ↦ some (record n { program = some t }) ])
    else if starts_with (codes "USER") name
    then (elim (decode value) [ none ↦ none | some t ↦ some (record n { local_user = some t }) ])
    else some n

-- An exception ends the loop, and keeps what was assigned.
unfoldable pub assign_all : Names → List Bytes → Names
unfolding assign name_and_value
assign_all n [] = n
assign_all n (item ∷ items) = elim (name_and_value item) [
  | none ↦ n
  | some (name, value) ↦ elim (assign n name value) [ none ↦ n | some n' ↦ assign_all n' items ]
]

abbrev pub description : Bytes
description = codes "(DESCRIPTION="

-- the part up to the first zero
abbrev first_part : List Bytes → Bytes
first_part [] = []
first_part (part ∷ parts) = part

unfoldable pub parse_payload : Bytes → Names
unfolding find split runs_from attributes_of assign_all
parse_payload data_ = elim (find description data_) [
  | none ↦ no_names
  | some offset ↦
      assign_all no_names
        (attributes_of (runs_from [] (first_part (split (0 ∷ []) (drop offset data_)))))
]
