-- ===== src/Server/Authorization/Users.antt =====
-- The user that a handler sees, with the middleware in front of it or without.
use sprintframework.Common.{false, ◌&&◌, Option, none, some, [], ◌≡◌, sym, ◌∙◌, arith}
use sprintframework.Common.{Bytes, ◌==◌, bytes_eq}
use sprintframework.Strconv.{is_zero}
use sprintframework.Utils.Tokens.{AuthorizedUser, Jwt}
use sprintframework.Server.Authorization.{
  Middleware, Context, authenticate, do_authenticate, get_user, known, or_anonymous, has_user_role,
}

-- A user with a name or an expiry.
abbrev pub IsNamed : Option AuthorizedUser → Type 0
IsNamed none = Unit {0}
IsNamed (some user) = (user.username == [] && is_zero user.expires_at) ≡ false

module _ (J : Jwt) where
  known-or_anonymous : (o : Option AuthorizedUser) → IsNamed o → known J (or_anonymous J o) ≡ o
  unfolding or_anonymous
  known-or_anonymous none h = ground arith
  known-or_anonymous (some user) h = rw h

  get_user_fresh :
      (t : Middleware) (ctx : Context)
      → ctx.user ≡ none
      → get_user J t ctx ≡ do_authenticate J t ctx
  unfolding get_user
  get_user_fresh t ctx fresh = ground arith

  get_user_behind :
      (t : Middleware) (ctx : Context)
      → IsNamed (do_authenticate J t ctx)
      → get_user J t (authenticate J t ctx) ≡ do_authenticate J t ctx
  unfolding get_user authenticate
  get_user_behind t ctx named = known-or_anonymous (do_authenticate J t ctx) named

  -- The middleware makes no difference to the user of a request, and so to its roles, unless the
  -- token is of a user with no name and no expiry.
  pub get_user-authenticate :
      (t : Middleware) (ctx : Context) (role : Bytes)
      → ctx.user ≡ none
      → IsNamed (do_authenticate J t ctx)
      → (get_user J t (authenticate J t ctx) ≡ get_user J t ctx)
        × (has_user_role J t (authenticate J t ctx) role ≡ has_user_role J t ctx role)
  unfolding has_user_role
  get_user-authenticate t ctx role fresh named =
      let e = get_user_behind t ctx named ∙ sym (get_user_fresh t ctx fresh) in
      (e, rw (e, has_user_role))
