-- ===== src/App/Application.antt =====
-- sprintapp/application.go: the application, its shutdown and the dispatch of its commands.
pub mod Shutdown
pub mod Dispatch
use sprintframework.Common.{Bool, true, false, not, ◌||◌, Option, none, some, List, [], ◌∷◌, ◌++◌}
use sprintframework.Common.{Bytes, codes, ◌==◌, bytes_eq, if◌then◌else◌, Result, ok, err, ◌>>=◌}
use sprintframework.Common.Dict
use sprintframework.Common.Dict.{Dict}
use sprintframework.Strings.{to_upper, to_lower}

-- A bean of the context: the application itself, or a value that some caller adds.
pub data Bean (B : Type 0) : Type 0 where
  itself : Bean B
  added : B → Bean B

-- A channel that is only ever closed.
pub data Channel : Type 0 where
  opened closed : Channel

-- A panic of the runtime.
pub data Panic : Type 0 where
  close_of_closed slice_out_of_range : Panic

pub record Application (B : Type 0) : Type 0 where
  pub beans : List (Bean B)
  pub name : Bytes
  pub version : Bytes
  pub build : Bytes
  pub profile : Bytes
  pub error : Option Bytes
  pub executable : Bytes
  pub executable_dir : Bytes
  pub application_dir : Bytes
  pub dev_mode : Bool
  pub shutting_down : Bool
  pub shutdown_ch : Channel
  pub restarting : Bool
  pub shutdown_done : Bool

-- The functional options.
pub data Choice (B : Type 0) : Type 0 where
  with_nope : Choice B
  with_version : Bytes → Choice B
  with_build : Bytes → Choice B
  with_beans : List B → Choice B

abbrev each_added : {B : Type 0} → List B → List (Bean B)
each_added [] = []
each_added (b ∷ bs) = added b ∷ each_added bs

close : Channel → Result Panic Channel
close opened = ok closed
close closed = err close_of_closed

module _ {B : Type 0} where
  unfoldable pub append_beans : List B → Application B → Application B
  append_beans scan t = record t { beans = t.beans ++ each_added scan }

  unfoldable pub apply : Choice B → Application B → Application B
  unfolding append_beans
  apply with_nope t = t
  apply (with_version v) t = record t { version = v }
  apply (with_build b) t = record t { build = b }
  apply (with_beans bs) t = append_beans bs t

  apply_all : List (Choice B) → Application B → Application B
  apply_all [] t = t
  apply_all (o ∷ os) t = apply_all os (apply o t)

  -- `Application`
  unfoldable pub new_application : Bytes → List (Choice B) → Application B
  unfolding apply_all apply
  new_application name options =
      let t = apply_all options (record {
        beans = [];
        name = name;
        version = [];
        build = [];
        profile = [];
        error = none;
        executable = [];
        executable_dir = [];
        application_dir = [];
        dev_mode = false;
        shutting_down = false;
        shutdown_ch = opened;
        restarting = false;
        shutdown_done = false;
      }) in
      record t { beans = t.beans ++ (itself ∷ []) }

  unfoldable pub active : Application B → Bool
  active t = not t.shutting_down

  -- `Shutdown`. The `sync.Once` is done as soon as its function is entered.
  unfoldable pub shutdown : Bool → Application B → Result Panic (Application B)
  unfolding close
  shutdown restart t =
      if t.shutdown_done
      then ok t
      else (close t.shutdown_ch >>= λ ch. ok (record t {
        shutdown_done = true;
        restarting = restart;
        shutting_down = true;
        error = some (codes "closed");
        shutdown_ch = ch;
      }))

-- `PostConstruct`, over the functions of path/filepath and the environment. `none` is an error
-- of `filepath.Abs`.
module _ {B : Type 0} (base dir : Bytes → Bytes) (abs : Bytes → Option Bytes)
    (getenv : Bytes → Bytes) where
  unfoldable pub post_construct : Bytes → Application B → Option (Application B)
  post_construct arg0 t = elim (abs (dir arg0)) [
    | none ↦ none
    | some bin ↦ elim (if base bin == codes "bin" then abs (dir bin) else abs bin) [
      | none ↦ none
      | some home ↦
          let profile = to_lower (getenv (to_upper (t.name ++ (b'_' ∷ codes "profile")))) in
          some (record t {
            executable = base arg0;
            executable_dir = bin;
            application_dir = home;
            profile = profile;
            dev_mode = profile == codes "dev";
          })
    ]
  ]

-- What `Run` comes to before a command's own code: a command that is run with its arguments,
-- the usage that is printed (behind the invalid command, if one was given), or an error.
pub data Outcome (E C : Type 0) : Type 0 where
  ran : C → List Bytes → Outcome E C
  usage : Option Bytes → Outcome E C
  failed : E → Outcome E C
  panicked : Panic → Outcome E C

unfoldable pub preprocess_args : List Bytes → List Bytes
preprocess_args [] = []
preprocess_args (a ∷ []) =
    if a == codes "-h" || (a == codes "-help" || a == codes "--help")
    then codes "help" ∷ []
    else if a == codes "-v" || (a == codes "-version" || a == codes "--version")
    then codes "version" ∷ []
    else a ∷ []
preprocess_args (a ∷ b ∷ rest) = a ∷ b ∷ rest

-- `args[1:]`
slice_from_one : List Bytes → Result Panic (List Bytes)
slice_from_one [] = err slice_out_of_range
slice_from_one (a ∷ rest) = ok rest

module _ {E C : Type 0} where
  run_sliced : C → Result Panic (List Bytes) → Outcome E C
  run_sliced command (ok rest) = ran command rest
  run_sliced command (err p) = panicked p

  -- The end of `Run`, behind the flags.
  unfoldable pub dispatch : Dict Bytes C → List Bytes → Outcome E C
  unfolding run_sliced slice_from_one
  dispatch commands [] = elim (Dict.lookup (codes "default") commands) [
    | none ↦ usage none
    | some inst ↦ run_sliced inst (slice_from_one [])
  ]
  dispatch commands (cmd ∷ rest) = elim (Dict.lookup cmd commands) [
    | none ↦ usage (some cmd)
    | some inst ↦ run_sliced inst (slice_from_one (cmd ∷ rest))
  ]

  -- `Run`, over the creation of the context, which may fail, and the parser of the flags.
  unfoldable pub run :
      Option E → (List Bytes → Result E (List Bytes)) → Dict Bytes C → List Bytes → Outcome E C
  unfolding dispatch preprocess_args
  run (some e) parse commands args = failed e
  run none parse commands args = elim (parse (preprocess_args args)) [
    | err e ↦ failed e
    | ok words ↦ dispatch commands words
  ]
