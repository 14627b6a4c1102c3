-- ===== src/Redis/Command.antt =====
-- The parsing functions of redis_server.py. `decimal` is `int` of a text of one character, with
-- `none` where that raises a `ValueError`; it also knows the digits of other scripts.
use honeypots.Prelude.{
  ℕ, zero, suc, Option, none, some, List, [], ◌∷◌, length, drop, ◌==◌, if◌then◌else◌,
}
use honeypots.Prelude.Int.{ℤ, pos, negsuc}
use honeypots.Python.Bytes.{Bytes, Text, codes, bytes_eq, split}
use honeypots.Python.Utf8.{decode}
use honeypots.Python.Result.{
  Result, ok, ◌>>=◌, of_option, result_or, index, unicode_error, value_error,
}

-- `str_list[0::2]` and, behind the first element, `str_list[1::2]`
abbrev pub evens : List Text → List Text
evens [] = []
evens (a ∷ []) = a ∷ []
evens (a ∷ b ∷ rest) = a ∷ evens rest

-- The second test is evaluated where the first one holds.
unfoldable pub parse_field : (ℕ → Option ℕ) → List Text → ℕ → Result Text
parse_field decimal str_list i = do
  size ← index (evens str_list) i
  mark ← index size 0
  if mark == b'$'
      then (do
        field ← index (evens (drop 1 str_list)) i
        digit ← index size 1
        n ← of_option value_error (decimal digit)
        ok (if length field == n then field else []))
      else ok []

-- `n - 1`
abbrev pub minus_one : ℕ → ℤ
minus_one zero = negsuc 0
minus_one (suc n) = pos n

abbrev no_command : ℤ × Text
no_command = (pos 0, [])

unfoldable pub get_command : (ℕ → Option ℕ) → Bytes → ℤ × Text
get_command decimal data_ = result_or no_command (do
  text ← of_option unicode_error (decode data_)
  let parts = split (codes "\r\n") text
  head ← index parts 0
  mark ← index head 0
  if mark == b'*'
      then (do
        digit ← index head 1
        n ← of_option value_error (decimal digit)
        command ← parse_field decimal (drop 1 parts) 0
        first ← index (evens (drop 1 (drop 1 parts))) 0
        ok (if bytes_eq command [] then no_command else (minus_one n, first)))
      else ok no_command)

-- The user name and the password of `parse_data`; `none` where no login is checked.
unfoldable pub credentials : (ℕ → Option ℕ) → ℤ → Bytes → Result (Option (Text × Text))
credentials decimal count data_ = do
  text ← of_option unicode_error (decode data_)
  let parts = drop 3 (split (codes "\r\n") text)
  elim count [
    | pos (suc zero) ↦ do password ← parse_field decimal parts 0; ok (some ([], password))
    | pos (suc (suc zero)) ↦ do
      username ← parse_field decimal parts 0
      password ← parse_field decimal parts 1
      ok (some (username, password))
    | _ ↦ ok none
  ]
