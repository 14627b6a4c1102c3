-- ===== src/Python/Number.antt =====
-- `int(text)` in the base ten.
use honeypots.Prelude.{
  ℕ, zero, suc, ◌+◌, ◌-◌, ◌*◌, Bool, true, false, ◌&&◌, Option, none, some, [], ◌∷◌, leb, ◌==◌,
  if◌then◌else◌,
}
use honeypots.Python.Bytes.{Text, strip}
use honeypots.Python.Value.{Value, int, neg}

abbrev is_digit : ℕ → Bool
is_digit c = leb b'0' c && leb c b'9'

-- The digits behind those read so far; an underscore stands between two digits.
unfoldable pub digits_from : Bool → ℕ → Text → Option ℕ
digits_from true acc [] = some acc
digits_from false acc [] = none
digits_from behind acc (c ∷ cs) = elim (is_digit c) [
  | true ↦ digits_from true (acc * 10 + (c - b'0')) cs
  | false ↦ elim (behind && c == b'_') [ true ↦ digits_from false acc cs | false ↦ none ]
]

abbrev signed : Bool → Option ℕ → Option Value
signed minus none = none
signed false (some n) = some (int n)
signed true (some zero) = some (int 0)
signed true (some (suc n)) = some (neg n)

abbrev number : Text → Option Value
number [] = none
number (c ∷ cs) =
    if c == b'-'
    then signed true (digits_from false 0 cs)
    else if c == b'+'
    then signed false (digits_from false 0 cs)
    else signed false (digits_from false 0 (c ∷ cs))

unfoldable pub parse_int : Text → Option Value
unfolding digits_from strip
parse_int t = number (strip t)
