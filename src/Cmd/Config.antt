-- ===== src/Cmd/Config.antt =====
-- sprintcmd/config_cmd.go: the command 'config'. What it prompts for and the files that it reads
-- are parameters.
use sprintframework.Common.{ℕ}
use sprintframework.Common.{false, ◌||◌, Option, none, some, List, [], ◌∷◌}
use sprintframework.Common.{
  Bytes, codes, ◌==◌, nat_eq, bytes_eq, if◌then◌else◌, drop, Result, ok, err, ◌>>=◌,
}
use sprintframework.Strings.{has_prefix}
use sprintframework.Strconv.{ℤ, pos, max_int, atoi}
use sprintframework.App.Property.{is_pem_property, is_password_property}
use sprintframework.Core.Store.{Store, Visitor}
use sprintframework.Core.ConfigRepository.{Repository, Fault, enumerate_all}
use sprintframework.Core.ConfigRepository
use sprintframework.Server.Control.{Output, written, panicked, list_entry}
use sprintframework.Client.{Failure, plain, config, command}
use sprintframework.Cmd.{Runner, Cores, do_in_core, or_local}

-- What is typed at the prompts, and the files.
pub record Input : Type 0 where
  pub pem : Result Bytes Bytes
  pub password : Bytes
  pub value : Bytes
  pub read_file : Bytes → Result Bytes Bytes

plain_err : Result Bytes Bytes → Result Failure Bytes
plain_err (ok s) = ok s
plain_err (err e) = err (plain e)

-- The value of `setConfig`: an argument, or else the answer to the prompt for such a key.
unfoldable pub given_value : Input → Bytes → List Bytes → Result Failure Bytes
unfolding plain_err
given_value i key (value ∷ rest) = ok value
given_value i key [] =
    if is_pem_property key
    then plain_err i.pem
    else if is_password_property key
    then ok i.password
    else ok i.value

-- A value that begins with @ is the name of a file.
unfoldable pub loaded : Input → Bytes → Result Failure Bytes
unfolding plain_err
loaded i value =
    if has_prefix value (codes "@") then plain_err (i.read_file (drop 1 value)) else ok value

-- The limit of `dumpFromStorage`.
unfoldable pub dump_limit : Bytes → List Bytes → Option ℤ
dump_limit cmd (prefix ∷ limit ∷ rest) = atoi limit
dump_limit cmd args = some (if cmd == codes "list" then pos 80 else pos max_int)

unfoldable pub dump_prefix : List Bytes → Bytes
dump_prefix [] = []
dump_prefix (prefix ∷ rest) = prefix

-- What is printed, until an error or a panic.
abbrev pub Shown : Type 0
Shown = Output × Option Failure

-- The callback of `dumpFromStorage`. It cuts like that of `configList`, and hides nothing.
unfoldable pub dump_visitor : ℤ → Visitor Output
dump_visitor limit panicked e = (panicked, false)
dump_visitor limit (written out) (key, value) = list_entry limit out key value

module _ (S : Store) (print : Fault S.Error → Bytes) where
  stated : Result (Fault S.Error) Bytes → Result Failure Bytes
  stated (ok value) = ok value
  stated (err e) = err (plain (print e))

  unfoldable pub told :
      Option (Fault S.Error) × Repository S × List ℕ → Result Failure Bytes × Repository S
  told (none, t, handles) = (ok (codes "SUCCESS"), t)
  told (some e, t, handles) = (err (plain (print e)), t)

  module _ {W : Type 0} (run : Runner W) (cores : Cores (Repository S)) where
    -- `getFromStorage`
    unfoldable pub get_from_storage : Bytes → Result Failure Bytes × Option (Repository S)
    unfolding stated
    get_from_storage key = do_in_core cores (λ t. (stated (ConfigRepository.get S t key), t))

    -- `setInStorage`
    unfoldable pub set_in_storage : Bytes → Bytes → Result Failure Bytes × Option (Repository S)
    unfolding told
    set_in_storage key value = do_in_core cores (λ t. told (ConfigRepository.set S t key value))

    -- `getConfig`: what it prints, and what is left outside and in the core.
    unfoldable pub get_config : List Bytes → W → Result Failure Bytes × W × Option (Repository S)
    get_config [] w = (err (plain (codes "'config get' command expected key argument")), w, none)
    get_config (key ∷ rest) w =
        or_local (run Bytes (λ c. command c config (codes "get") (key ∷ [])) w)
          (get_from_storage key)

    unfoldable pub set_value :
        Bytes → Result Failure Bytes → W → Result Failure Bytes × W × Option (Repository S)
    set_value key (err e) w = (err e, w, none)
    set_value key (ok value) w =
        or_local
          (run Bytes
            (λ c v.
              let (r, u) = command c config (codes "set") (key ∷ value ∷ []) v in
              (r >>= (λ content. ok (codes "SUCCESS")), u))
            w)
          (set_in_storage key value)

    -- `setConfig`
    unfoldable pub set_config :
        Input → List Bytes → W → Result Failure Bytes × W × Option (Repository S)
    unfolding set_value
    set_config i [] w = (err (plain (codes "'config set' command expected key argument")), w, none)
    set_config i (key ∷ args) w = set_value key (given_value i key args >>= loaded i) w

    printed : Output × Option (Fault S.Error) → Output × Option Failure
    printed (out, none) = (out, none)
    printed (out, some e) = (out, some (plain (print e)))

    dump_core : Bytes → Option ℤ → Result Failure Shown × Option (Repository S)
    unfolding printed
    dump_core prefix none = (err (plain (codes "parsing limit")), none)
    dump_core prefix (some limit) =
        do_in_core cores (λ t.
          (ok (printed (enumerate_all S t prefix Output (dump_visitor limit) (written []))), t))

    -- `dumpFromStorage`
    unfoldable pub dump_from_storage :
        Bytes → List Bytes → Result Failure Shown × Option (Repository S)
    unfolding dump_core
    dump_from_storage cmd args = dump_core (dump_prefix args) (dump_limit cmd args)

    -- `dumpConfig`
    unfoldable pub dump_config :
        Bytes → List Bytes → W → Result Failure Shown × W × Option (Repository S)
    dump_config cmd args w =
        or_local
          (run Shown
            (λ c v.
              let (r, u) = command c config cmd args v in
              (r >>= (λ content. ok (written content, none)), u))
            w)
          (dump_from_storage cmd args)

    line :
        Result Failure Bytes × W × Option (Repository S)
        → Result Failure Shown × W × Option (Repository S)
    line (r, w, core) = (r >>= (λ content. ok (written content, none)), w, core)

    -- `Run`
    unfoldable pub config_run :
        Input → List Bytes → W → Result Failure Shown × W × Option (Repository S)
    unfolding line
    config_run i [] w = (err (plain (codes "config command needs argument")), w, none)
    config_run i (cmd ∷ args) w =
        if cmd == codes "get"
        then line (get_config args w)
        else if cmd == codes "set"
        then line (set_config i args w)
        else if cmd == codes "dump" || cmd == codes "list"
        then dump_config cmd args w
        else (err (plain (codes "unknown sub-command for config")), w, none)
