-- ===== src/Server/Authorization/Start.antt =====
-- sprintserver/authorization_middleware.go: the start of the middleware, which makes a secret key
-- and a first token if there is none. The store of properties, the random source, the account of
-- the process and the clock are what the functions are given.
use sprintframework.Common.{ℕ, ◌+◌, ◌*◌, true, Option, none, some, List, [], ◌∷◌}
use sprintframework.Common.{Bytes, codes, ◌==◌, bytes_eq, if◌then◌else◌, Result, ok, err}
use sprintframework.Strconv.{pos}
use sprintframework.Utils.Tokens.{
  Encoding, Jwt, AuthorizedUser, AuthError, generate_token, generate_auth_token,
}

-- `E` is the type of the errors of the operating system and of the configuration.
pub data StartError (E D A : Type 0) : Type 0 where
  no_token : E → StartError E D A
  not_set : E → StartError E D A
  not_encoded : D → StartError E D A
  no_account : E → StartError E D A
  not_authorized : AuthError A → StartError E D A

-- The user of the first token.
abbrev pub first_user : Bytes → ℕ → AuthorizedUser
first_user name now = record {
  username = name;
  roles = some ((codes "USER", true) ∷ (codes "ADMIN", true) ∷ []);
  context = some [];
  expires_at = pos (now + 356 * 24 * 3600);
  token = [];
}

module _ (C : Encoding) (J : Jwt) (E : Type 0) where
  abbrev pub Failing : Type 0 → Type 0
  Failing A = Result (StartError E C.Error J.Error) A

  unfoldable pub signed_first : Result (AuthError J.Error) Bytes → Failing Bytes
  signed_first (ok token) = ok token
  signed_first (err e) = err (not_authorized e)

  -- `generateDefaultAuthToken`
  unfoldable pub generate_default_auth_token : Result E Bytes → ℕ → Bytes → Failing Bytes
  generate_default_auth_token account now secret = elim (C.decode secret) [
    | err e ↦ err (not_encoded e)
    | ok key ↦ elim account [
      | err e ↦ err (no_account e)
      | ok name ↦ signed_first (generate_auth_token J (some key) (some (first_user name now)))
    ]
  ]

  -- The key of a secret, with the token that was printed, if one was.
  unfoldable pub keyed : Option Bytes → Bytes → Failing (Bytes × Option Bytes)
  keyed token secret = elim (C.decode secret) [
    | err e ↦ err (not_encoded e)
    | ok key ↦ ok (key, token)
  ]

  unfoldable pub printed : Bytes → Failing Bytes → Failing (Bytes × Option Bytes)
  printed secret (err e) = err e
  printed secret (ok token) = keyed (some token) secret

  unfoldable pub generated :
      (Bytes → Option E) → Result E Bytes → ℕ → Result E Bytes → Failing (Bytes × Option Bytes)
  generated set_property account now (err e) = err (no_token e)
  generated set_property account now (ok secret) = elim (set_property secret) [
    | some e ↦ err (not_set e)
    | none ↦ printed secret (generate_default_auth_token account now secret)
  ]

  -- `PostConstruct`, over the property `jwt.secret.key`. `none` tells that the generation of a
  -- token wants a further read of the random source.
  unfoldable pub post_construct :
      (Bytes → Option E)
      → Result E Bytes
      → ℕ
      → List (Result E Bytes)
      → Bytes
      → Option (Failing (Bytes × Option Bytes))
  post_construct set_property account now reads secret =
      if secret == []
      then elim (generate_token C reads) [
        | none ↦ none
        | some r ↦ some (generated set_property account now r)
      ]
      else some (keyed none secret)
