-- ===== src/Command/Tree.antt =====
-- The commands of cmd/client and cmd/server, with their arguments and flags as they are declared to
-- cobra, and what main does with an error.
use ib.Prelude.{
  ℕ, ◌≡◌, Str, codes, List, [], ◌∷◌, Option, none, some, is_empty, if◌then◌else◌, arith,
}
use ib.Config.{ServerConfig, Os}
use ib.Command.Server.{ServeFlags, started}

-- The kind of a flag with its default.
pub data Value : Type 0 where
  text : Str → Value
  texts : List Str → Value
  number : ℕ → Value

pub record Flag : Type 0 where
  pub name : Str
  pub default : Value

-- A command by the words that lead to it from the program's name. `args` is the number of arguments
-- of cobra.ExactArgs; `runs` says whether it has a RunE, or only groups others.
pub data Runs : Type 0 where
  groups runs : Runs

pub record Command : Type 0 where
  pub words : List Str
  pub args : Option ℕ
  pub flags : List Flag
  pub runs : Runs

abbrev flag : Str → Value → Flag
flag name default = record { name = name; default = default }

abbrev group : List Str → Command
group words = record { words = words; args = none; flags = []; runs = groups }

abbrev pub login_command : Command
login_command = record {
  words = codes "login" ∷ [];
  args = some 1;
  flags = flag (codes "token") (text []) ∷ [];
  runs = runs;
}

abbrev pub create_command : Command
create_command = record {
  words = codes "backup" ∷ codes "create" ∷ [];
  args = some 1;
  flags = flag (codes "tag") (texts []) ∷ flag (codes "concurrency") (number 16) ∷ [];
  runs = runs;
}

abbrev pub list_command : Command
list_command = record {
  words = codes "backup" ∷ codes "list" ∷ [];
  args = none;
  flags = flag (codes "tag") (texts []) ∷ [];
  runs = runs;
}

abbrev pub restore_command : Command
restore_command = record {
  words = codes "backup" ∷ codes "restore" ∷ [];
  args = some 1;
  flags =
      flag (codes "id") (text [])
      ∷ flag (codes "tag") (texts [])
      ∷ flag (codes "concurrency") (number 4)
      ∷ [];
  runs = runs;
}

abbrev pub backup_commands : List Command
backup_commands = group (codes "backup" ∷ []) ∷ create_command ∷ list_command ∷ restore_command ∷ []

abbrev pub client_commands : List Command
client_commands = login_command ∷ backup_commands

abbrev pub serve_command : Command
serve_command = record {
  words = codes "serve" ∷ [];
  args = none;
  flags =
      flag (codes "listen") (text [])
      ∷ flag (codes "metrics-port") (number 0)
      ∷ flag (codes "title") (text (codes "ib Backup"))
      ∷ [];
  runs = runs;
}

abbrev pub token_commands : List Command
token_commands =
    group (codes "token" ∷ [])
    ∷ record { words = codes "token" ∷ codes "show" ∷ []; args = none; flags = []; runs = runs }
    ∷ []

abbrev pub init_command : Command
init_command = record { words = codes "init" ∷ []; args = none; flags = []; runs = runs }

-- The init functions of the package run in the order of its files: init.go before root.go.
abbrev pub server_commands : List Command
server_commands = init_command ∷ serve_command ∷ token_commands

-- os.Exit(1) after an error of Execute.
abbrev pub exit_status : Option Str → ℕ
exit_status none = 0
exit_status (some m) = 1

-- The flags of serve when none is given.
abbrev pub no_serve_flags : ServeFlags
no_serve_flags = record { listen = []; metrics_port = 0; title = codes "ib Backup" }

-- Without flags, and without a port in the environment, the server listens where the configuration
-- says, has no metrics server, and is titled by the environment if that is set.
started_without_flags :
    (O : Os) (c : ServerConfig)
    → O.getenv (codes "IB_METRICS_PORT") ≡ []
    → started O no_serve_flags c ≡ record {
      cfg = c;
      metrics_port = 0;
      title =
          if is_empty (O.getenv (codes "IB_TITLE"))
          then codes "ib Backup"
          else O.getenv (codes "IB_TITLE");
    }
unfolding started ib.Prelude.str_eq
started_without_flags O c h = ground (arith, h)
