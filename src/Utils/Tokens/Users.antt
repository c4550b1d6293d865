-- ===== src/Utils/Tokens/Users.antt =====
-- A token that was generated for a user authorizes that user.
use sprintframework.Common.{
  Bool, true, false, Option, none, some, List, [], ◌∷◌, ◌≡◌, refl, arith, inl, inr,
}
use sprintframework.Common.{Bytes, bytes_eq, contains, if◌then◌else◌, ok, Result-cases}
use sprintframework.Common.Dict
use sprintframework.Common.Dict.{Dict}
use sprintframework.Utils.Tokens.{
  AuthorizedUser, claims_of, Jwt, has_role, index_roles, role_keys, generate_auth_token,
  verify_auth_token,
}

pub lookup-index_roles :
    (roles : List Bytes) (m : Dict Bytes Bool) (role : Bytes)
    → Dict.lookup role (index_roles roles m)
      ≡ (if contains roles role then some true else Dict.lookup role m)
unfolding index_roles
lookup-index_roles [] m role = refl
lookup-index_roles (r ∷ roles) m role =
    ground (
      arith,
      lookup-index_roles roles (Dict.insert r true m) role,
      Dict.lookup-insert role r true m,
    )

-- Whether the user has an entry for the role, whatever its value.
abbrev pub mentions_role : Option (Dict Bytes Bool) → Bytes → Bool
mentions_role none role = false
mentions_role (some m) role = elim (Dict.lookup role m) [ none ↦ false | some b ↦ true ]

contains-keys :
    (d : Dict Bytes Bool) (role : Bytes) → contains (Dict.keys d) role ≡ mentions_role (some d) role
unfolding Dict.keys Dict.lookup
contains-keys [] role = refl
contains-keys ((r, b) ∷ d) role = ground (arith, contains-keys d role, Dict.lookup-cons role r b d)

contains-role_keys :
    (roles : Option (Dict Bytes Bool)) (role : Bytes)
    → contains (role_keys roles) role ≡ mentions_role roles role
contains-role_keys none role = refl
contains-role_keys (some m) role = contains-keys m role

has_role-index_roles :
    (roles : Option (Dict Bytes Bool)) (role : Bytes)
    → has_role (some (index_roles (role_keys roles) [])) role ≡ mentions_role roles role
has_role-index_roles roles role = ground (
  arith,
  lookup-index_roles (role_keys roles) [] role,
  contains-role_keys roles role,
  Dict.lookup-nil {V = Bool} role,
)

module _ (J : Jwt) where
  generate-ok :
      (key : Bytes) (user : AuthorizedUser) {token : Bytes}
      → generate_auth_token J (some key) (some user) ≡ ok token
      → J.sign key (claims_of user) ≡ ok token
  unfolding generate_auth_token
  generate-ok key user h = elim (Result-cases (J.sign key (claims_of user))) [
    | inl (t, e) ↦ ground arith
    | inr (x, e) ↦ absurd (ground arith)
  ]

  -- The user that verifying a token of `user` gives.
  abbrev pub recovered : AuthorizedUser → Bytes → AuthorizedUser
  recovered user token = record user {
    roles = some (index_roles (role_keys user.roles) []);
    token = token;
  }

  -- Where jwt takes back what it has signed for a user, verifying the generated token gives the
  -- same user, with that token. Its roles are those that the user's map has an entry for, also
  -- where the entry is false.
  pub verify-generate_auth_token :
      (key : Bytes) (user : AuthorizedUser) {token : Bytes}
      → ((t : Bytes)
          → J.sign key (claims_of user) ≡ ok t
          → J.parse key t ≡ ok (claims_of user, true))
      → generate_auth_token J (some key) (some user) ≡ ok token
      → (verify_auth_token J (some key) token ≡ ok (recovered user token))
        × ((role : Bytes)
            → has_role (recovered user token).roles role ≡ mentions_role user.roles role)
  unfolding verify_auth_token
  verify-generate_auth_token key user {token} law h =
      let e = law token (generate-ok key user h) in
      (rw (e, verify_auth_token), has_role-index_roles user.roles)
