-- ===== src/Helper/Kill.antt =====
-- `clean_all` and `kill_servers` of helper.py: the end of servers that were started as scripts.
mod Tests
use honeypots.Prelude.{
  ℕ, Bool, true, false, ◌&&◌, ◌||◌, none, some, List, [], ◌∷◌, ◌++◌, if◌then◌else◌,
}
use honeypots.Python.Bytes.{Text, codes, bytes_eq, find, join}
use honeypots.Python.Result.{Result, ok, raised}

-- A process of the machine: its command line, or the error that reading it raises, and whether it can
-- be signalled.
pub record Process : Type 0 where
  pub pid : ℕ
  pub cmdline : Result (List Text)
  pub may_signal : Bool

pub data Event : Type 0 where
  terminated killed : ℕ → Event

abbrev mentions : Text → Text → Bool
mentions w line = elim (find w line) [ none ↦ false | some i ↦ true ]

-- `"--custom" in cmdline and name in cmdline`
unfoldable pub is_server : Text → List Text → Bool
unfolding find join
is_server name words =
    let cmdline = join (codes " ") words in
    mentions (codes "--custom") cmdline && mentions name cmdline

-- The body of the loop: what it does, and whether it raised.
unfoldable pub kill_process : Text → Process → List Event × Bool
unfolding is_server
kill_process name p = elim p.cmdline [
  | raised e ↦ ([], true)
  | ok words ↦
      if is_server name words
      then (if p.may_signal then (terminated p.pid ∷ killed p.pid ∷ [], false) else ([], true))
      else ([], false)
]

abbrev unless_raised : List Event × Bool → List Event → List Event
unless_raised (es, true) rest = es
unless_raised (es, false) rest = es ++ rest

-- The loop stands inside of `suppress`, so the first exception ends it.
unfoldable pub kill_servers : Text → List Process → List Event
unfolding kill_process
kill_servers name [] = []
kill_servers name (p ∷ ps) =
    let rest = kill_servers name ps in unless_raised (kill_process name p) rest

unfoldable pub ends_with : Text → Text → Bool
unfolding bytes_eq
ends_with suffix [] = bytes_eq suffix []
ends_with suffix (c ∷ t) = bytes_eq suffix (c ∷ t) || ends_with suffix t

-- The entries of the directory with whether each is a file; `processes` gives the processes at the
-- look for each name.
unfoldable pub clean_all : (Text → List Process) → List (Bool × Text) → List Event
unfolding ends_with kill_servers
clean_all processes [] = []
clean_all processes ((is_file, name) ∷ entries) =
    let rest = clean_all processes entries in
    if is_file && ends_with (codes "_server.py") name
    then kill_servers name (processes name) ++ rest
    else rest
