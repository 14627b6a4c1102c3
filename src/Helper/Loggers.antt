-- ===== src/Helper/Loggers.antt =====
-- `setup_logger` of helper.py: the handlers that the configuration asks for.
use honeypots.Prelude.{
  ℕ, Bool, true, false, not, ◌&&◌, ◌||◌, ◌==◌, ◌≤◌, ◌≡◌, refl, ◌⊎◌, inl, inr, Option-cases, Option,
  none, some, List, [], ◌∷◌, ◌++◌, length, length-append, arith, if◌then◌else◌,
}
use honeypots.Python.Bytes.{Text, codes, find, lower, replace, starts_with}
use mathlib.Core.Option
use honeypots.Helper.Filter.{Filters}
use honeypots.Helper.Emit.{CustomHandler, in_logs}

-- The entries of one server that the file handler reads.
pub record ServerConfig : Type 0 where
  pub log_file_name : Option Text
  pub max_bytes : Option ℕ
  pub backup_count : Option ℕ

-- The entries of a configuration file that the loggers read.
pub record Config : Type 0 where
  pub logs : Option Text
  pub logs_location : Option Text
  pub custom_filter : Option Filters
  pub honeypots : Text → Option ServerConfig
  pub syslog_address : Option Text
  pub syslog_facility : Option ℕ
  pub is_empty : Bool

-- What reading the file gives: an error is logged and the defaults are kept.
pub data ConfigFile : Type 0 where
  no_file json_error os_error : ConfigFile
  loaded : Config → ConfigFile

abbrev pub IsLoaded : ConfigFile → Type 0
IsLoaded (loaded c) = Unit {0}
IsLoaded _ = ⊥

pub data Address : Type 0 where
  host_port : Text → ℕ → Address

pub data LogHandler : Type 0 where
  custom : CustomHandler → LogHandler
  rotating : Text → Option Filters → ℕ → ℕ → LogHandler
  syslog : Address → Option ℕ → LogHandler

abbrev or_else {ℓ} : {A : Type ℓ} → Option A → A → A
or_else none a = a
or_else (some a) b = a

unfoldable pub no_config : Config
no_config = record {
  logs = none;
  logs_location = none;
  custom_filter = none;
  honeypots = λ _. none;
  syslog_address = none;
  syslog_facility = none;
  is_empty = true;
}

unfoldable pub config_of : ConfigFile → Config
unfolding no_config
config_of (loaded c) = c
config_of _ = no_config

abbrev pub no_server_config : ServerConfig
no_server_config = record { log_file_name = none; max_bytes = none; backup_count = none }

-- `name[1:].lower().replace("server", "")`
unfoldable pub server_key : Text → Text
unfolding lower replace
server_key [] = []
server_key (c ∷ name) = replace (codes "server") [] (lower name)

-- `str(directory / name)`: a name from the root replaces the directory
unfoldable pub path_join : Text → Text → Text
unfolding starts_with
path_join directory name =
    if starts_with (codes "/") name then name else directory ++ codes "/" ++ name

-- `url.hostname` and `url.port`, where both are there
abbrev whole_address : Option Text × Option ℕ → Option Address
whole_address (some [], p) = none
whole_address (some host, some port) = if port == 0 then none else some (host_port host port)
whole_address _ = none

-- `tempdir` is that of the system, `urlparse` gives the host and the port of an address.
module _ (tempdir : Text) (urlparse : Text → Option Text × Option ℕ) where
  unfoldable pub logs_path : Config → Text
  unfolding path_join
  logs_path c = elim (or_else c.logs_location []) [
    | [] ↦ path_join tempdir (codes "logs")
    | x ∷ l ↦ x ∷ l
  ]

  -- `_set_up_syslog_handler`
  unfoldable pub set_up_syslog_handler : Option Text → Option ℕ → Option LogHandler
  set_up_syslog_handler address facility = elim (or_else address []) [
    | [] ↦ some (syslog (host_port (codes "localhost") 514) facility)
    | x ∷ a ↦ Option.map (λ target. syslog target facility) (whole_address (urlparse (x ∷ a)))
  ]

  abbrev logs_of : Config → Text
  logs_of c = or_else c.logs (codes "terminal")

  -- the first `if` and its `elif`
  unfoldable pub custom_handlers : Config → List LogHandler
  unfolding in_logs
  custom_handlers c =
      if in_logs (codes "db_postgres_removed") (logs_of c)
        || in_logs (codes "db_sqlite") (logs_of c)
      then custom (record {
        logs = logs_of c;
        custom_filter = c.custom_filter;
        has_db = not c.is_empty && in_logs (codes "db_sqlite") (logs_of c);
      })
        ∷ []
      else if in_logs (codes "terminal") (logs_of c)
      then custom (record { logs = logs_of c; custom_filter = c.custom_filter; has_db = false })
        ∷ []
      else []

  unfoldable pub file_handlers : Text → Text → Config → List LogHandler
  unfolding in_logs server_key path_join logs_path
  file_handlers name temp_name c =
      let server_config = or_else (c.honeypots (server_key name)) no_server_config in
      if in_logs (codes "file") (logs_of c)
      then rotating (path_join (logs_path c) (or_else server_config.log_file_name temp_name))
          c.custom_filter (or_else server_config.max_bytes 10000)
          (or_else server_config.backup_count 10)
        ∷ []
      else []

  unfoldable pub syslog_handlers : Config → List LogHandler
  unfolding in_logs set_up_syslog_handler
  syslog_handlers c =
      if in_logs (codes "syslog") (logs_of c)
      then elim (set_up_syslog_handler c.syslog_address c.syslog_facility) [
        | none ↦ []
        | some h ↦ h ∷ []
      ]
      else []

  unfoldable pub setup_logger : Text → Text → ConfigFile → List LogHandler
  unfolding config_of custom_handlers file_handlers syslog_handlers
  setup_logger name temp_name f =
      let c = config_of f in
      custom_handlers c ++ file_handlers name temp_name c ++ syslog_handlers c

  custom_handlers_bound : (c : Config) → length (custom_handlers c) ≤ 1
  unfolding custom_handlers
  custom_handlers_bound c = ground arith

  file_handlers_bound :
      (name temp_name : Text) (c : Config) → length (file_handlers name temp_name c) ≤ 1
  unfolding file_handlers
  file_handlers_bound name temp_name c = ground arith

  syslog_handlers_bound : (c : Config) → length (syslog_handlers c) ≤ 1
  unfolding syslog_handlers
  syslog_handlers_bound c =
      ground (arith, Option-cases (set_up_syslog_handler c.syslog_address c.syslog_facility))

  handlers_bound :
      (a b c : List LogHandler)
      → length a ≤ 1
      → length b ≤ 1
      → length c ≤ 1
      → length (a ++ b ++ c) ≤ 3
  handlers_bound a b c p q r = omega (arith, length-append (a ++ b) c, length-append a b)

  setup_logger_bound :
      (name temp_name : Text) (f : ConfigFile) → length (setup_logger name temp_name f) ≤ 3
  unfolding setup_logger
  setup_logger_bound name temp_name f =
      let c = config_of f in
      handlers_bound (custom_handlers c) (file_handlers name temp_name c) (syslog_handlers c)
        (custom_handlers_bound c) (file_handlers_bound name temp_name c) (syslog_handlers_bound c)

  without_config :
      (name temp_name : Text) (f : ConfigFile)
      → IsLoaded f
        ⊎ (setup_logger name temp_name f
            ≡ custom (record { logs = codes "terminal"; custom_filter = none; has_db = false })
              ∷ [])
  unfolding setup_logger custom_handlers file_handlers syslog_handlers config_of in_logs find
  without_config name temp_name no_file = inr refl
  without_config name temp_name json_error = inr refl
  without_config name temp_name os_error = inr refl
  without_config name temp_name (loaded c) = inl tt

  -- A logger has at most three handlers: one for the terminal or the database, one for the files,
  -- one for the syslog. Where no configuration is loaded, because there is none or its file cannot be
  -- read or parsed, it has exactly the one that writes to the terminal.
  pub setup_logger_bounds :
      (name temp_name : Text) (f : ConfigFile)
      → (length (setup_logger name temp_name f) ≤ 3)
        × (IsLoaded f
            ⊎ (setup_logger name temp_name f
                ≡ custom (record { logs = codes "terminal"; custom_filter = none; has_db = false })
                  ∷ []))
  setup_logger_bounds name temp_name f =
      (setup_logger_bound name temp_name f, without_config name temp_name f)
