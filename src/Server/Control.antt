-- ===== src/Server/Control.antt =====
-- sprintserver/grpc_control_server.go: the control service. Each handler returns its reply, with
-- the state that it leaves. The reply of the handlers on a panic is the error that it recovers.
pub mod Configuration
pub mod Gate
pub mod Secrecy
use sprintframework.Common.{ℕ, ◌+◌, Bool, true, false, not, Option, none, some, List, [], ◌∷◌, ◌++◌}
use sprintframework.Common.{
  Bytes, codes, ◌==◌, bytes_eq, if◌then◌else◌, Result, ok, err, take, length, ltb,
}
use sprintframework.Strings.{replace_byte}
use sprintframework.Strconv.{ℤ, pos, negsuc, atoi}
use sprintframework.Utils.Tokens.{AuthorizedUser, Jwt, has_role}
use sprintframework.App.Property.{is_hidden_property}
use sprintframework.Core.Store.{Store, Visitor}
use sprintframework.Core.ConfigRepository.{Repository, Fault, store_error, nil_backend}
use sprintframework.Core.ConfigRepository
use sprintframework.Server.Authorization.{Middleware, Context, get_user, has_user_role}

pub record Command : Type 0 where
  pub command : Bytes
  pub args : List Bytes

-- `E` is the type of the errors of the service that a handler calls.
pub data ControlError (E : Type 0) : Type 0 where
  user_not_found wrong_role admin_required unknown_command missing_args bad_limit recovered :
      ControlError E
  failed : E → ControlError E

abbrev pub admin : Bytes
admin = codes "ADMIN"

-- The stars in place of a hidden value.
abbrev pub stars : Bytes
stars = codes "******"

-- The value as it is shown for the key.
unfoldable pub masked : Bytes → Bytes → Bytes
masked key value = if is_hidden_property key then stars else value

unfoldable pub config_line : Bytes → Bytes → Bytes
config_line key value = key ++ (codes ": " ++ (value ++ codes "\n"))

-- What a callback has written, until it panics.
pub data Output : Type 0 where
  written : Bytes → Output
  panicked : Output

unfoldable pub dump_visitor : Visitor Output
unfolding config_line
dump_visitor panicked (key, value) = (panicked, false)
dump_visitor (written out) (key, value) =
    (written (out ++ config_line key (masked key value)), true)

-- `len(value) > limit`, and the slice `value[:limit]`, which panics below 0.
pub data Cut : Type 0 where
  whole : Cut
  first : ℕ → Cut
  out_of_range : Cut

unfoldable pub cut : ℤ → Bytes → Cut
cut (pos limit) value = if ltb limit (length value) then first limit else whole
cut (negsuc n) value = out_of_range

-- The body of the callback of `configList` behind the test for hidden properties.
unfoldable pub list_entry : ℤ → Bytes → Bytes → Bytes → Output × Bool
unfolding config_line cut
list_entry limit out key value = elim (cut limit value) [
  | whole ↦ (written (out ++ config_line key value), true)
  | first n ↦ (
    written (out ++ config_line key (replace_byte (take n value ++ codes "...") b'\n' b' ')),
    true,
  )
  | out_of_range ↦ (panicked, false)
]

unfoldable pub list_visitor : ℤ → Visitor Output
unfolding list_entry
list_visitor limit panicked (key, value) = (panicked, false)
list_visitor limit (written out) (key, value) = list_entry limit out key (masked key value)

-- The role test of the handlers `Node`, `Config` and `Certificate`.
abbrev pub is_admin : AuthorizedUser → Bool
is_admin user = has_role user.roles admin

abbrev first_arg : List Bytes → Bytes
first_arg [] = []
first_arg (a ∷ rest) = a

module _ (J : Jwt) {E : Type 0} where
  -- The guard in front of a handler, by `GetUser` and the user's roles.
  unfoldable pub check_user : Middleware → Context → Option (ControlError E)
  check_user m ctx = elim (get_user J m ctx) [
    | none ↦ some user_not_found
    | some user ↦ if is_admin user then none else some wrong_role
  ]

  -- `Node`: the reply, and the argument of the shutdown that is scheduled, if one is.
  unfoldable pub node : Middleware → Context → Command → Result (ControlError E) Bytes × Option Bool
  node m ctx req = elim (check_user m ctx) [
    | some e ↦ (err e, none)
    | none ↦
        if req.command == codes "restart"
        then (ok (codes "OK"), some true)
        else if req.command == codes "shutdown"
        then (ok (codes "OK"), some false)
        else (err unknown_command, none)
  ]

-- A service of the context that executes commands, with its state.
pub record Executor : Type 1 where
  pub State : Type 0
  pub Error : Type 0
  pub execute : State → Bytes → List Bytes → Result Error Bytes × State

module _ (J : Jwt) (X : Executor) where
  reply : Result X.Error Bytes → Result (ControlError X.Error) Bytes
  reply (ok content) = ok content
  reply (err e) = err (failed e)

  executed : Command → X.State → Result (ControlError X.Error) Bytes × X.State
  executed req s = let (r, t) = X.execute s req.command req.args in (reply r, t)

  -- `Job` and `Storage`, each over its service.
  unfoldable pub service_command :
      Middleware → Context → Command → X.State → Result (ControlError X.Error) Bytes × X.State
  unfolding executed reply
  service_command m ctx req s =
      if has_user_role J m ctx admin then executed req s else (err admin_required, s)

  optional_command :
      Bytes → Command → Option X.State → Result (ControlError X.Error) Bytes × Option X.State
  unfolding executed reply
  optional_command absent req none = (ok absent, none)
  optional_command absent req (some s) = let (r, t) = executed req s in (r, some t)

  -- `Certificate`, over the manager and the service, which have one state and may be missing.
  unfoldable pub certificate :
      Middleware
      → Context
      → Command
      → Option X.State
      → Option X.State
      → Result (ControlError X.Error) Bytes × Option X.State × Option X.State
  unfolding optional_command
  certificate m ctx req manager service = elim (check_user J {E = X.Error} m ctx) [
    | some e ↦ (err e, manager, service)
    | none ↦
        if req.command == codes "manager"
        then (let (r, t) =
              optional_command (codes "Error: certificate manager not found in context") req
                manager in
            (r, t, service))
        else (let (r, t) =
              optional_command (codes "Error: certificate service not found in context") req
                service in
            (r, manager, t))
  ]

module _ (J : Jwt) (S : Store) where
  fault : Fault S.Error → ControlError S.Error
  fault (store_error e) = failed e
  fault nil_backend = recovered

  shown_value : Bytes → Result (Fault S.Error) Bytes → Result (ControlError S.Error) Bytes
  shown_value key (err e) = err (fault e)
  shown_value key (ok value) = ok (masked key value)

  -- `configGet`
  unfoldable pub config_get : Repository S → List Bytes → Result (ControlError S.Error) Bytes
  unfolding shown_value fault
  config_get t [] = err missing_args
  config_get t (key ∷ rest) = shown_value key (ConfigRepository.get S t key)

  -- `configSet`
  unfoldable pub config_set :
      Repository S → List Bytes → Result (ControlError S.Error) Bytes × Repository S
  unfolding fault
  config_set t (key ∷ value ∷ rest) =
      let (e, u, told) = ConfigRepository.set S t key value in
      elim e [ some x ↦ (err (fault x), u) | none ↦ (ok (codes "OK"), u) ]
  config_set t _ = (err missing_args, t)

  output : Output × Option (Fault S.Error) → Result (ControlError S.Error) Bytes
  output (panicked, e) = err recovered
  output (written out, some e) = err (fault e)
  output (written out, none) = ok out

  -- `configDump`
  unfoldable pub config_dump : Repository S → List Bytes → Result (ControlError S.Error) Bytes
  unfolding output dump_visitor fault
  config_dump t args =
      output (ConfigRepository.enumerate_all S t (first_arg args) Output dump_visitor (written []))

  limited : Repository S → Bytes → Option ℤ → Result (ControlError S.Error) Bytes
  unfolding output list_visitor fault
  limited t prefix none = err bad_limit
  limited t prefix (some limit) =
      output (ConfigRepository.enumerate_all S t prefix Output (list_visitor limit) (written []))

  -- `configList`
  unfoldable pub config_list : Repository S → List Bytes → Result (ControlError S.Error) Bytes
  unfolding limited
  config_list t (prefix ∷ limit ∷ rest) = limited t prefix (atoi limit)
  config_list t args = limited t (first_arg args) (some (pos 80))

  -- `Config`
  unfoldable pub config :
      Middleware
      → Context
      → Command
      → Repository S
      → Result (ControlError S.Error) Bytes × Repository S
  unfolding config_get config_set config_dump config_list
  config m ctx req t = elim (check_user J m ctx) [
    | some e ↦ (err e, t)
    | none ↦
        if req.command == codes "get"
        then (config_get t req.args, t)
        else if req.command == codes "set"
        then config_set t req.args
        else if req.command == codes "dump"
        then (config_dump t req.args, t)
        else if req.command == codes "list"
        then (config_list t req.args, t)
        else (err unknown_command, t)
  ]
