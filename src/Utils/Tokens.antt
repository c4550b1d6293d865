-- ===== src/Utils/Tokens.antt =====
-- sprintutils/tokens.go: bootstrap tokens and the tokens that authorize users. base64 and the
-- module jwt are parameters; random bytes are the list of what the reader gives.
pub mod Bootstrap
pub mod Users
use sprintframework.Common.{ℕ, Bool, true, false, Option, none, some, List, [], ◌∷◌, ◌≡◌, length}
use sprintframework.Common.{Bytes, codes, ◌==◌, nat_eq, bytes_eq, if◌then◌else◌, Result, ok, err}
use sprintframework.Common.Dict
use sprintframework.Common.Dict.{Dict}
use sprintframework.Strings.{contains_any}
use sprintframework.Strconv.{ℤ}

abbrev pub default_token_size : ℕ
default_token_size = 32

-- The encoding `base64.RawURLEncoding`.
pub record Encoding : Type 1 where
  pub Error : Type 0
  pub encode : Bytes → Bytes
  pub decode : Bytes → Result Error Bytes

pub record IsEncoding (C : Encoding) : Type 0 where
  pub decode-encode : (s : Bytes) → C.decode (C.encode s) ≡ ok s

-- The errors of `ParseToken`.
pub data TokenError (E : Type 0) : Type 0 where
  not_encoded : E → TokenError E
  wrong_size : ℕ → TokenError E

module _ (C : Encoding) where
  -- `GenerateToken` over what each read of the random source gives. `none` tells that the loop
  -- wants a further read.
  unfoldable pub generate_token : {E : Type 0} → List (Result E Bytes) → Option (Result E Bytes)
  generate_token [] = none
  generate_token (err e ∷ more) = some (err e)
  generate_token (ok nonce ∷ more) =
      let key = C.encode nonce in
      let again = generate_token more in
      if contains_any key (codes "-_") then again else some (ok key)

  -- `ParseToken`, without the bytes that it returns beside an error.
  unfoldable pub parse_token : Bytes → Result (TokenError C.Error) Bytes
  parse_token base64key = elim (C.decode base64key) [
    | err e ↦ err (not_encoded e)
    | ok key ↦ if length key == default_token_size then ok key else err (wrong_size (length key))
  ]

-- `sprint.AuthorizedUser`. `none` is the nil map.
pub record AuthorizedUser : Type 0 where
  pub username : Bytes
  pub roles : Option (Dict Bytes Bool)
  pub context : Option (Dict Bytes Bytes)
  pub expires_at : ℤ
  pub token : Bytes

-- `UserClaims`
pub record UserClaims : Type 0 where
  pub roles : List Bytes
  pub context : Option (Dict Bytes Bytes)
  pub id : Bytes
  pub expires_at : ℤ

-- The module jwt at one moment: what a token signs, and its check with the flag `Valid`.
pub record Jwt : Type 1 where
  pub Error : Type 0
  pub sign : Bytes → UserClaims → Result Error Bytes
  pub parse : Bytes → Bytes → Result Error (UserClaims × Bool)

-- The errors of the two functions below.
pub data AuthError (E : Type 0) : Type 0 where
  empty_secret_key empty_user wrong_token expired_token : AuthError E
  not_signed : E → AuthError E

-- The index expression on a map that may be nil, with the zero value false.
abbrev pub has_role : Option (Dict Bytes Bool) → Bytes → Bool
has_role none role = false
has_role (some m) role = elim (Dict.lookup role m) [ none ↦ false | some b ↦ b ]

abbrev role_keys : Option (Dict Bytes Bool) → List Bytes
role_keys none = []
role_keys (some m) = Dict.keys m

abbrev pub claims_of : AuthorizedUser → UserClaims
claims_of user = record {
  roles = role_keys user.roles;
  context = user.context;
  id = user.username;
  expires_at = user.expires_at;
}

unfoldable pub index_roles : List Bytes → Dict Bytes Bool → Dict Bytes Bool
index_roles [] m = m
index_roles (role ∷ roles) m = index_roles roles (Dict.insert role true m)

module _ (J : Jwt) where
  signed : Result J.Error Bytes → Result (AuthError J.Error) Bytes
  signed (ok t) = ok t
  signed (err e) = err (not_signed e)

  -- `GenerateAuthToken`
  unfoldable pub generate_auth_token :
      Option Bytes → Option AuthorizedUser → Result (AuthError J.Error) Bytes
  unfolding signed
  generate_auth_token none user = err empty_secret_key
  generate_auth_token (some key) none = err empty_user
  generate_auth_token (some key) (some user) = signed (J.sign key (claims_of user))

  verified : Bytes → Result J.Error (UserClaims × Bool) → Result (AuthError J.Error) AuthorizedUser
  verified token (err e) = err wrong_token
  verified token (ok (claims, valid)) =
      if valid
      then ok (record {
        username = claims.id;
        roles = some (index_roles claims.roles []);
        context = claims.context;
        expires_at = claims.expires_at;
        token = token;
      })
      else err expired_token

  -- `VerifyAuthToken`
  unfoldable pub verify_auth_token :
      Option Bytes → Bytes → Result (AuthError J.Error) AuthorizedUser
  unfolding verified
  verify_auth_token none token = err empty_secret_key
  verify_auth_token (some key) token = verified token (J.parse key token)
