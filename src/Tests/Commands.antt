-- ===== src/Tests/Commands.antt =====
-- The commands: with a node that refuses or does not answer, and the processes of a node.
use sprintframework.Common.{contains, map}
use sprintframework.Strings.{split, trim_space}
use sprintframework.Utils.Tokens.{
  Encoding, Jwt, AuthorizedUser, claims_of, has_role, verify_auth_token,
}
use sprintframework.Common.{ap}
use sprintframework.Utils.Tokens.{AuthError}
use sprintframework.Utils.Tokens.Users.{recovered}
use sprintframework.Server.Authorization.Start.{post_construct}
use sprintframework.Core.ConfigRepository.{Fault}
use sprintframework.Cmd.Setup.{Texts, secret_name, setup_user, setup}
use sprintframework.Cmd.Setup.Starting.{setup_token_is_admin}
use sprintframework.Cmd.Keygen.{described_user, expiry, keygen_auth}
use sprintframework.Cmd.Keygen.Granting.{keygen_auth_grants}
use sprintframework.Common.{ℕ, ◌+◌, ◌≡◌, ◌≢◌, refl, arith}
use sprintframework.Common.{true, false, none, some, [], ◌∷◌, ◌++◌}
use sprintframework.Common.{Bytes, codes, nat_eq, bytes_eq, Result, ok, err}
use sprintframework.Common.Dict
use sprintframework.Common.Dict.{Dict}
use sprintframework.Strconv.{pos, IsInt}
use sprintframework.Core.Store.Memory.{memory_store, memory_store-IsLawful}
use sprintframework.Core.ConfigRepository.{Repository, set, get, raw_key, do_set}
use sprintframework.Server.Control.{Command, ControlError}
use sprintframework.App.Flags.{ApplicationFlags, get_property}
use sprintframework.App.Flags.Parse.{parse_flags}
use sprintframework.App.Flags.WellFormed.{IsWellFormed}
use sprintframework.App.Flags.RoundTrip.{fresh_flags}
use sprintframework.Client.{Method, Connection}
use sprintframework.Cmd.{Runner, Service, storage_run, cert_run}
use sprintframework.Cmd.Config.{Input, get_config, set_config}
use sprintframework.Cmd.Fallback.{only, served_by, any_error_falls_back, refused_get_reads_local}
use sprintframework.Cmd.RoundTrip.{get_config-set_config}
use sprintframework.Cmd.Node.{Host, Killer, Settings, failed, start, start_args, stop_run, kills}
use sprintframework.Cmd.Processes.{started_process}
use sprintframework.Cmd.Child.{update_key, updated_flags, child_of_update}
use sprintframework.Tests.Samples.{one_token, middleware, as_guest, repository}

-- A node that refuses whatever it is asked.
abbrev refusing : Connection ℕ
refusing = record {
  tls = none;
  target = codes "localhost";
  Error = Unit {0};
  print = λ e. codes "refused";
  call = λ method req w. (err tt, w);
  stats = λ w. err tt;
}

abbrev always : {W : Type 0} → Connection W → Runner W
always c A cb w = cb c w

abbrev echo : Service ℕ
echo cmd args core = (ok cmd, core + 1)

any_error_falls_back_example :
    (codes "compact" ≢ codes "console"
      → storage_run
          (always refusing)
          (only 1)
          (λ c w. (ok [], w))
          (λ core. (ok [], core))
          echo
          (codes "compact" ∷ [])
          0
        ≡ (ok (codes "compact"), 0, some 2))
    × (cert_run {C = ℕ} (always refusing) (only 1) none (codes "compact" ∷ []) 0
        ≡ (ok (codes "Error: cert.CertificateService not found in core context"), 0, some 1))
unfolding sprintframework.Cmd.do_in_core bytes_eq
any_error_falls_back_example =
    any_error_falls_back (always refusing) (only 1) refusing (λ c w. (ok [], w))
      (λ core. (ok [], core)) echo none (codes "compact") [] 0 (λ A cb w. refl)

abbrev others :
    Method
    → Command
    → Repository memory_store
    → Result (ControlError (Unit {0})) Bytes × Repository memory_store
others method req w = (ok [], w)

abbrev as_a_guest : Connection (Repository memory_store)
as_a_guest =
    served_by memory_store (λ e. []) one_token middleware as_guest none [] (λ e. []) others
      (λ w. ok [])

abbrev hidden : Repository memory_store
hidden = repository ((raw_key (codes ".key"), codes "secret") ∷ [])

refused_get_reads_local_example :
    get_config memory_store
      (λ e. [])
      (always as_a_guest)
      (only hidden)
      (codes ".key" ∷ [])
      (repository [])
    ≡ (ok (codes "secret"), repository [], some hidden)
unfolding sprintframework.Server.Authorization.has_user_role
    sprintframework.Server.Authorization.get_user bytes_eq get Dict.lookup raw_key
refused_get_reads_local_example =
    refused_get_reads_local memory_store (λ e. []) one_token middleware as_guest (always as_a_guest)
      none [] (λ e. []) others (λ w. ok []) (codes ".key") [] (repository []) hidden
      (codes "secret") refl (λ A cb w. refl) refl

abbrev input : Input
input = record { pem = err []; password = []; value = []; read_file = λ name. err [] }

get_config-set_config_example :
    let u = (set memory_store (repository []) (codes "ab") (codes "x")).1 in
    (set_config memory_store
        (λ e. [])
        (always refusing)
        (only (repository []))
        input
        (codes "ab" ∷ codes "x" ∷ [])
        0
      ≡ (ok (codes "SUCCESS"), 0, some u))
    × (get_config memory_store (λ e. []) (always refusing) (only u) (codes "ab" ∷ []) 0
        ≡ (ok (codes "x"), 0, some u))
unfolding sprintframework.Strings.has_prefix set do_set bytes_eq
get_config-set_config_example =
    get_config-set_config memory_store (λ e. []) memory_store-IsLawful input (always refusing)
      refusing (repository []) (codes "ab") (codes "x") [] [] 0 (λ A cb w. refl)
      (λ method req w. (tt, refl)) (ground arith) refl refl

abbrev host : Host
host = record {
  run_dir_error = none;
  pid_file = none;
  is_alive = λ pid. true;
  executable = codes "/app/node";
  dir = codes "/app";
  base = codes "node";
  join_path = λ dir name. dir ++ (b'/' ∷ name);
  exists = λ path. false;
  copy_works = λ from to. true;
  launch = λ path args. ok (pos 42);
  write_works = true;
  release_error = none;
}

abbrev killer : Killer
killer = record { start_error = none; remove_error = none; wait_error = none }

abbrev settings : Settings
settings = record {
  name = codes "node";
  node = pos 0;
  autoupdate = false;
  arch = codes "arm64";
  system = codes "linux";
}

abbrev flags : ApplicationFlags
flags = record {
  daemon = some false;
  verbose = some true;
  node = some (pos 3);
  priority = pos 0;
  properties = some ((codes "a", codes "b") ∷ []);
}

started_process_example :
    let later = record host { pid_file = some (ok (codes "42")) } in
    (start flags settings later false ≡ failed (codes "found already running process"))
    × (stop_run (always refusing) killer (ok (codes "42")) 0 ≡ (kills (codes "42") none, 0))
unfolding start sprintframework.Cmd.Node.check_pid sprintframework.Strconv.itoa
started_process_example =
    started_process flags settings host (record host { pid_file = some (ok (codes "42")) }) false
      (codes "42") (always refusing) refusing killer 0 0 tt (λ path args pid e. ground arith) refl
      refl refl refl (λ A cb w. refl) refl

well_formed : IsWellFormed flags.properties
well_formed = record { nodup = (Dict.lookup-nil {V = Bytes} (codes "a"), tt); lack = ground arith }

three : IsInt (sprintframework.App.Flags.node flags)
unfolding sprintframework.App.Flags.node
three = ground arith

child_of_update_example :
    (parse_flags (start_args flags (some (codes "/app/node"))) none (fresh_flags (pos 0))
      ≡ ok (updated_flags flags (pos 0) (codes "/app/node"), codes "node" ∷ codes "run" ∷ []))
    × (get_property (updated_flags flags (pos 0) (codes "/app/node")) update_key
        ≡ some (codes "/app/node"))
    × ((key v : Bytes)
        → key ≢ []
        → key ≢ update_key
        → get_property flags key ≡ some v
        → get_property (updated_flags flags (pos 0) (codes "/app/node")) key ≡ some v)
child_of_update_example = child_of_update flags (pos 0) (codes "/app/node") three well_formed

-- Base64 that changes nothing, and a jwt whose only token is that of bob, who has two roles.
abbrev no_encoding : Encoding
no_encoding = record { Error = Unit {0}; encode = λ s. s; decode = λ s. ok s }

abbrev bob : AuthorizedUser
bob = described_user (codes "bob") (codes "A, B") (codes "k=v") (expiry 100 (pos 2))

abbrev bobs_token : Jwt
bobs_token = record {
  Error = Unit {0};
  sign = λ key claims. ok (codes "t");
  parse = λ key token. ok (claims_of bob, true);
}

keygen_auth_grants_example :
    (user : AuthorizedUser) × (verify_auth_token bobs_token (some (codes "s")) (codes "t")
      ≡ ok user)
    × (user.username ≡ codes "bob")
    × (user.expires_at ≡ pos 172900)
    × ((role : Bytes)
        → has_role user.roles role ≡ contains (map trim_space (split (codes "A, B") b',')) role)
unfolding sprintframework.Strconv.atoi keygen_auth sprintframework.Utils.Tokens.generate_auth_token
keygen_auth_grants_example =
    keygen_auth_grants no_encoding bobs_token 100 (codes "s") (codes "bob") (codes "A, B")
      (codes "k=v") (codes "2") [] (codes "s") 2 (codes "t") (λ t e. refl) refl refl (omega arith)
      refl

abbrev no_texts : Texts (Fault (Unit {0})) (Unit {0}) (AuthError (Unit {0}))
no_texts = record { store = λ e. []; encoding = λ e. []; token = λ e. [] }

-- The repository behind the setup of a node that has no secret.
abbrev set_up : Repository memory_store
set_up = (set memory_store (repository []) secret_name (codes "s")).1

-- The token of a user is its name.
abbrev naming_token : Jwt
naming_token = record {
  Error = Unit {0};
  sign = λ key claims. ok claims.id;
  parse = λ key token. ok (claims_of (setup_user token 100), true);
}

setup_token_is_admin_example :
    (secret key name : Bytes) × (get memory_store set_up secret_name ≡ ok secret)
    × ((s : Bytes) → get memory_store (repository []) secret_name ≡ ok s → s ≢ [] → s ≡ secret)
    × (post_construct no_encoding naming_token (Unit {0}) (λ s. none) (ok []) 200 [] secret
        ≡ some (ok (key, none)))
    × (◌≡◌ {A = Result Bytes Bytes} (ok (codes "root")) (ok name))
    × (verify_auth_token naming_token (some key) (codes "root")
        ≡ ok (recovered naming_token (setup_user name 100) (codes "root")))
    × (has_role (recovered naming_token (setup_user name 100) (codes "root")).roles (codes "ADMIN")
        ≡ true)
unfolding setup sprintframework.Cmd.do_in_core get set bytes_eq do_set Dict.lookup
    sprintframework.Utils.Tokens.generate_auth_token
setup_token_is_admin_example =
    setup_token_is_admin no_encoding naming_token memory_store no_texts (Unit {0})
      memory_store-IsLawful (ok (codes "b")) (ok (codes "s")) (ok (codes "root")) 100
      (repository []) set_up (codes "b") (codes "root") (λ s. none) (ok []) 200 []
      (λ e. absurd (ground arith))
      (λ key name token e. ap (λ t. ok (claims_of (setup_user t 100), true)) (ground (arith, e)))
      refl
