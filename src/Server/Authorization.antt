-- ===== src/Server/Authorization.antt =====
-- sprintserver/authorization_middleware.go: who makes a request, by the token of its header.
pub mod Tokens
pub mod Users
pub mod Start
pub mod FirstToken
use sprintframework.Common.{Bool, true, false, ◌&&◌, Option, none, some, List, [], ◌∷◌}
use sprintframework.Common.{Bytes, codes, ◌==◌, nat_eq, bytes_eq, if◌then◌else◌, Result, ok, err}
use sprintframework.Common.Dict
use sprintframework.Common.Dict.{Dict}
use sprintframework.Strings.{has_prefix, trim_prefix, trim_space}
use sprintframework.Strconv.{pos, is_zero}
use sprintframework.Utils.Tokens.{
  AuthorizedUser, Jwt, AuthError, has_role, generate_auth_token, verify_auth_token,
}

pub record Middleware : Type 0 where
  pub invalid_tokens : Dict Bytes Bool
  pub secret_key : Option Bytes

-- A request's context: the incoming metadata, if there is any, and the user that
-- `Authenticate` put in.
pub record Context : Type 0 where
  pub metadata : Option (Dict Bytes (List Bytes))
  pub user : Option AuthorizedUser

abbrev pub bearer : Bytes
bearer = codes "Bearer "

abbrev pub anonymous : AuthorizedUser
anonymous = record { username = []; roles = none; context = none; expires_at = pos 0; token = [] }

-- The token in a header with the prefix.
abbrev pub header_token : Bytes → Bytes
header_token header = trim_space (trim_prefix header bearer)

module _ (J : Jwt) where
  user_of : Result (AuthError J.Error) AuthorizedUser → Option AuthorizedUser
  user_of (ok user) = some user
  user_of (err e) = none

  is_invalid : Option Bool → Bool
  is_invalid none = false
  is_invalid (some b) = true

  authenticate_token : Middleware → Bytes → Option AuthorizedUser
  unfolding user_of is_invalid
  authenticate_token t token =
      if token == []
      then none
      else if is_invalid (Dict.lookup token t.invalid_tokens)
      then none
      else user_of (verify_auth_token J t.secret_key token)

  -- `AuthenticateByHeader`
  unfoldable pub authenticate_by_header : Middleware → Bytes → Option AuthorizedUser
  unfolding authenticate_token
  authenticate_by_header t header =
      if has_prefix header bearer then authenticate_token t (header_token header) else none

  by_headers : Middleware → List Bytes → Option AuthorizedUser
  by_headers t (header ∷ []) = authenticate_by_header t header
  by_headers t _ = none

  -- `doAuthenticate`
  unfoldable pub do_authenticate : Middleware → Context → Option AuthorizedUser
  unfolding by_headers authenticate_by_header
  do_authenticate t ctx = elim ctx.metadata [
    | none ↦ none
    | some md ↦ elim (Dict.lookup (codes "authorization") md) [
      | none ↦ none
      | some headers ↦ by_headers t headers
    ]
  ]

  or_anonymous : Option AuthorizedUser → AuthorizedUser
  or_anonymous none = anonymous
  or_anonymous (some user) = user

  -- `Authenticate`
  unfoldable pub authenticate : Middleware → Context → Context
  unfolding or_anonymous
  authenticate t ctx = record ctx { user = some (or_anonymous (do_authenticate t ctx)) }

  abbrev pub known : AuthorizedUser → Option AuthorizedUser
  known user = if user.username == [] && is_zero user.expires_at then none else some user

  -- `GetUser`
  unfoldable pub get_user : Middleware → Context → Option AuthorizedUser
  get_user t ctx = elim ctx.user [ none ↦ do_authenticate t ctx | some user ↦ known user ]

  -- `HasUserRole`
  unfoldable pub has_user_role : Middleware → Context → Bytes → Bool
  has_user_role t ctx role = elim (get_user t ctx) [
    | none ↦ false
    | some user ↦ has_role user.roles role
  ]

  context_value : Option (Dict Bytes Bytes) → Bytes → Option Bytes
  context_value none name = none
  context_value (some m) name = Dict.lookup name m

  -- `UserContext`
  unfoldable pub user_context : Middleware → Context → Bytes → Option Bytes
  unfolding context_value
  user_context t ctx name = elim (get_user t ctx) [
    | none ↦ none
    | some user ↦ context_value user.context name
  ]

  -- `GenerateToken`
  unfoldable pub generate_token :
      Middleware → Option AuthorizedUser → Result (AuthError J.Error) Bytes
  generate_token t user = generate_auth_token J t.secret_key user

  -- `ParseToken`
  unfoldable pub parse_token : Middleware → Bytes → Result (AuthError J.Error) AuthorizedUser
  parse_token t token = verify_auth_token J t.secret_key token

-- `InvalidateToken`
unfoldable pub invalidate_token : Bytes → Middleware → Middleware
invalidate_token token t = record t { invalid_tokens = Dict.insert token true t.invalid_tokens }
