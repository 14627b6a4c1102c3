-- ===== src/Python/Bytes.antt =====
-- Byte strings and texts as lists of numbers (bytes, code points), with the methods of `bytes`
-- and `str` that the servers call.
use Prim.Native.Char.{code}
use honeypots.Prelude.{
  ℕ, zero, suc, ◌+◌, ◌-◌, ◌*◌, ◌/◌, ◌%◌, String, Bool, true, false, ◌&&◌, ◌||◌, Option, none, some,
  List, [], ◌∷◌, ◌++◌, length, take, drop, leb, ltb, ◌==◌, if◌then◌else◌,
}

abbrev pub Bytes : Type 0
Bytes = List ℕ

abbrev pub Text : Type 0
Text = List ℕ

-- A literal of the source, as its code points (its bytes, if it is ASCII).
abbrev pub codes : String → List ℕ
codes String.[] = []
codes (String.◌∷◌ c s) = code c ∷ codes s

-- `a == b` on byte strings and texts
unfoldable pub bytes_eq : Bytes → Bytes → Bool
bytes_eq [] [] = true
bytes_eq (x ∷ xs) (y ∷ ys) = x == y && bytes_eq xs ys
bytes_eq _ _ = false

-- `data.startswith(prefix)`, the prefix first
unfoldable pub starts_with : Bytes → Bytes → Bool
starts_with [] data_ = true
starts_with (p ∷ ps) [] = false
starts_with (p ∷ ps) (x ∷ xs) = p == x && starts_with ps xs

-- `data.find(needle)`, with `none` for -1
unfoldable pub find_from : ℕ → Bytes → Bytes → Option ℕ
unfolding starts_with
find_from i needle [] = if starts_with needle [] then some i else none
find_from i needle (x ∷ xs) =
    let later = find_from (i + 1) needle xs in if starts_with needle (x ∷ xs) then some i else later

unfoldable pub find : Bytes → Bytes → Option ℕ
unfolding find_from
find = find_from 0

-- `data[start:stop]` at indices that are not negative
abbrev pub slice : ℕ → ℕ → Bytes → Bytes
slice start stop xs = take (stop - start) (drop start xs)

-- The separator is matched at `skip` = 0; otherwise that many of its bytes are still to be passed.
unfoldable pub split_from : Bytes → ℕ → Bytes → Bytes → List Bytes
unfolding starts_with
split_from sep skip cur [] = cur ∷ []
split_from sep (suc k) cur (x ∷ xs) = split_from sep k cur xs
split_from sep zero cur (x ∷ xs) = elim (starts_with sep (x ∷ xs)) [
  | true ↦ cur ∷ split_from sep (length sep - 1) [] xs
  | false ↦ split_from sep 0 (cur ++ x ∷ []) xs
]

-- `data.split(sep)` for a separator that is not empty
unfoldable pub split : Bytes → Bytes → List Bytes
unfolding split_from
split sep = split_from sep 0 []

unfoldable pub replace_from : Bytes → Bytes → ℕ → Bytes → Bytes
unfolding starts_with
replace_from old new skip [] = []
replace_from old new (suc k) (x ∷ xs) = replace_from old new k xs
replace_from old new zero (x ∷ xs) = elim (starts_with old (x ∷ xs)) [
  | true ↦ new ++ replace_from old new (length old - 1) xs
  | false ↦ x ∷ replace_from old new 0 xs
]

-- `data.replace(old, new)` for an `old` that is not empty
unfoldable pub replace : Bytes → Bytes → Bytes → Bytes
unfolding replace_from
replace old new = replace_from old new 0

unfoldable pub lower_byte : ℕ → ℕ
lower_byte c = if leb b'A' c && leb c b'Z' then c + 32 else c

-- `data.lower()` on bytes
unfoldable pub lower : Bytes → Bytes
unfolding lower_byte
lower [] = []
lower (c ∷ cs) = lower_byte c ∷ lower cs

unfoldable pub upper_byte : ℕ → ℕ
upper_byte c = if leb b'a' c && leb c b'z' then c - 32 else c

-- `data.upper()` on bytes
unfoldable pub upper : Bytes → Bytes
unfolding upper_byte
upper [] = []
upper (c ∷ cs) = upper_byte c ∷ upper cs

-- the bytes that `bytes.strip()` removes
unfoldable pub is_space : ℕ → Bool
is_space c = c == 32 || leb 9 c && leb c 13

unfoldable pub strip_left : Bytes → Bytes
unfolding is_space
strip_left [] = []
strip_left (c ∷ cs) = let rest = strip_left cs in if is_space c then rest else c ∷ cs

unfoldable pub strip_right : Bytes → Bytes
unfolding is_space
strip_right [] = []
strip_right (c ∷ cs) = elim (strip_right cs) [
  | [] ↦ if is_space c then [] else c ∷ []
  | d ∷ ds ↦ c ∷ d ∷ ds
]

-- `data.strip()`
unfoldable pub strip : Bytes → Bytes
unfolding strip_left strip_right
strip cs = strip_right (strip_left cs)

abbrev pub word_of : Bytes → Bytes
word_of [] = []
word_of (c ∷ cs) = let rest = word_of cs in if is_space c then [] else c ∷ rest

abbrev pub after_word : Bytes → Bytes
after_word [] = []
after_word (c ∷ cs) = let rest = after_word cs in if is_space c then c ∷ cs else rest

-- `data.split(None, n)`: the last part keeps the spaces inside and behind it
unfoldable pub split_words : ℕ → Bytes → List Bytes
unfolding strip_left
split_words zero cs = elim (strip_left cs) [ [] ↦ [] | d ∷ ds ↦ (d ∷ ds) ∷ [] ]
split_words (suc m) cs = elim (strip_left cs) [
  | [] ↦ []
  | d ∷ ds ↦ word_of (d ∷ ds) ∷ split_words m (after_word (d ∷ ds))
]

-- `sep.join(parts)`
unfoldable pub join : Bytes → List Bytes → Bytes
join sep [] = []
join sep (p ∷ []) = p
join sep (p ∷ q ∷ ps) = p ++ sep ++ join sep (q ∷ ps)

-- The decimal digits of a number, in front of `rest`; the fuel is more than the digits.
unfoldable pub digits_onto : ℕ → ℕ → Text → Text
digits_onto zero n rest = rest
digits_onto (suc fuel) n rest =
    let more = digits_onto fuel (n / 10) ((b'0' + n % 10) ∷ rest) in
    if ltb n 10 then (b'0' + n) ∷ rest else more

-- `str(n)`
unfoldable pub str : ℕ → Text
unfolding digits_onto
str n = digits_onto (n + 1) n []

abbrev hex_digit : ℕ → ℕ
hex_digit d = if ltb d 10 then b'0' + d else b'a' + (d - 10)

-- `data.hex()`
unfoldable pub hex : Bytes → Text
hex [] = []
hex (b ∷ bs) = hex_digit (b / 16) ∷ hex_digit (b % 16) ∷ hex bs

-- the value of a hexadecimal digit
abbrev unhex_digit : ℕ → ℕ
unhex_digit c = if leb c b'9' then c - b'0' else if leb c b'F' then c - 55 else c - 87

-- `unhexlify(digits)` and `bytes.fromhex(digits)` for an even number of hexadecimal digits
unfoldable pub unhex : Bytes → Bytes
unhex (a ∷ b ∷ rest) = (unhex_digit a * 16 + unhex_digit b) ∷ unhex rest
unhex _ = []

-- `hex(b)[2:]` of a byte
unfoldable pub hex_short : ℕ → Text
hex_short b = if ltb b 16 then hex_digit b ∷ [] else hex_digit (b / 16) ∷ hex_digit (b % 16) ∷ []

-- the hexadecimal digits of a number, in front of `rest`, as `digits_onto`
abbrev hex_onto : ℕ → ℕ → Text → Text
hex_onto zero n rest = rest
hex_onto (suc fuel) n rest =
    let more = hex_onto fuel (n / 16) (hex_digit (n % 16) ∷ rest) in
    if ltb n 16 then hex_digit n ∷ rest else more

-- `hex(n)`
unfoldable pub hex_number : ℕ → Text
hex_number n = b'0' ∷ b'x' ∷ hex_onto (n + 1) n []
