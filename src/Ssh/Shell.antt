-- ===== src/Ssh/Shell.antt =====
-- `_parse_args`, `_respond` and `COMMANDS` of ssh_server.py.
use honeypots.Prelude.{
  Bool, false, not, ◌||◌, String, Option, none, some, List, [], ◌∷◌, ◌++◌, drop, ◌==◌,
  if◌then◌else◌,
}
use honeypots.Python.Bytes.{Text, codes, bytes_eq, find, replace, split, starts_with}
use honeypots.Python.Utf8.{encode}
use honeypots.Session.{Handler, write, skip}

unfoldable pub commands : List (String × String)
commands =
    (
      "ls",
      "bin boot cdrom dev etc home lib lib32 libx32 lib64 lost+found media mnt opt proc root run sbin snap srv sys tmp usr var",
    )
    ∷ ("pwd", "/")
    ∷ ("whoami", "root")
    ∷ ("", "")
    ∷ ("cd", "")
    ∷ ("cd /", "")
    ∷ ("uname", "Linux")
    ∷ ("uname -s", "Linux")
    ∷ ("uname -n", "n1-v26")
    ∷ ("uname -r", "5.4.0-26-generic")
    ∷ ("uname -v", "#26-Ubuntu SMP %TIME")
    ∷ ("uname -m", "x86_64")
    ∷ ("uname -p", "x86_64")
    ∷ ("uname -i", "x86_64")
    ∷ ("uname -o", "GNU/Linux")
    ∷ (
      "uname -a",
      "Linux n1-v26 5.4.0-26-generic #26-Ubuntu SMP %TIME x86_64 x86_64 x86_64 GNU/Linux",
    )
    ∷ []

-- `COMMANDS.get(line)`
unfoldable pub find_command : List (String × String) → Text → Option Text
unfolding bytes_eq
find_command [] line = none
find_command ((command, response) ∷ rest) line =
    if bytes_eq (codes command) line then some (codes response) else find_command rest line

abbrev pub is_argument : Text → Bool
is_argument [] = false
is_argument (c ∷ cs) = not (c == b'-')

unfoldable pub first_argument : List Text → Option Text
first_argument [] = none
first_argument (word ∷ words) = if is_argument word then some word else first_argument words

unfoldable pub parse_args : Text → Option Text
unfolding split first_argument
parse_args line = first_argument (drop 1 (split (codes " ") line))

-- `line.endswith("\x03")`
unfoldable pub is_cancelled : Text → Bool
is_cancelled [] = false
is_cancelled (c ∷ []) = c == 3
is_cancelled (c ∷ d ∷ cs) = is_cancelled (d ∷ cs)

-- `now` is the time in the format of the source.
unfoldable pub with_time : Text → Text → Text
unfolding find replace
with_time now response = elim (find (codes "%TIME") response) [
  | none ↦ response
  | some i ↦ replace (codes "%TIME") now response
]

abbrev home : Text → Text
home target =
    if starts_with (codes "~") target then replace (codes "~") (codes "/root") target else target

abbrev change_directory : Option Text → Text
change_directory none = []
change_directory (some target) = codes "sh: 1: cd: can't cd to " ++ home target

abbrev list_directory : Option Text → Text
list_directory none =
    codes
      "bin boot cdrom dev etc home lib lib32 libx32 lib64 lost+found media mnt opt proc root run sbin snap srv sys tmp usr var"
list_directory (some target) =
    codes "ls: cannot open directory '" ++ (target ++ codes "': Permission denied")

-- the text that is sent for a line, without the end of the line
unfoldable pub response_to : Text → Text → Text
unfolding find_command parse_args with_time
response_to now line = elim (find_command commands line) [
  | some response ↦ with_time now response
  | none ↦
      if starts_with (codes "cd ") line
      then change_directory (parse_args line)
      else if starts_with (codes "ls ") line
      then list_directory (parse_args line)
      else line ++ codes ": command not found"
]

unfoldable pub respond : {S : Type 0} → Text → Text → Handler S (Unit {0})
unfolding response_to is_cancelled bytes_eq
respond now line =
    if bytes_eq line [] || is_cancelled line
    then skip
    else write (encode (response_to now line ++ codes "\r\n"))
