-- ===== src/Server/Authorization/Tokens.antt =====
-- An invalidated token is refused from then on, and no other token is.
use sprintframework.Common.{Bool, true, false, Option, none, some, [], ◌≡◌, refl, arith}
use sprintframework.Common.{Bytes, ◌==◌, bytes_eq, if◌then◌else◌}
use sprintframework.Common.Dict
use sprintframework.Strings.{has_prefix}
use sprintframework.Utils.Tokens.{AuthorizedUser, Jwt, verify_auth_token}
use sprintframework.Server.Authorization.{
  Middleware, bearer, header_token, is_invalid, user_of, authenticate_token, authenticate_by_header,
  invalidate_token,
}

choose :
    (b c : Bool) (o : Option AuthorizedUser)
    → (if b then if c then none else o else none) ≡ (if c then none else if b then o else none)
choose b c o = ground arith

module _ (J : Jwt) where
  refuse :
      (b c : Bool) (l : Option Bool) (o : Option AuthorizedUser)
      → (if b then none else if is_invalid J (if c then some true else l) then none else o)
        ≡ (if c then none else if b then none else if is_invalid J l then none else o)
  unfolding is_invalid
  refuse b true l o = ground arith
  refuse b false l o = refl

  authenticate_token-invalidate_token :
      (token other : Bytes) (t : Middleware)
      → authenticate_token J (invalidate_token token t) other
        ≡ (if other == token then none else authenticate_token J t other)
  unfolding authenticate_token invalidate_token
  authenticate_token-invalidate_token token other t =
      rw (Dict.lookup-insert other token true t.invalid_tokens, is_invalid)
        (refuse (other == []) (other == token) (Dict.lookup other t.invalid_tokens)
          (user_of J (verify_auth_token J t.secret_key other)))

  by_token :
      (t : Middleware) (header : Bytes)
      → authenticate_by_header J t header
        ≡ (if has_prefix header bearer then authenticate_token J t (header_token header) else none)
  unfolding authenticate_by_header
  by_token t header = refl

  -- After `InvalidateToken` a header that carries the token authenticates nobody, however it is
  -- spaced, and every other header authenticates whom it did before.
  pub authenticate_by_header-invalidate_token :
      (token header : Bytes) (t : Middleware)
      → authenticate_by_header J (invalidate_token token t) header
        ≡ (if header_token header == token then none else authenticate_by_header J t header)
  authenticate_by_header-invalidate_token token header t =
      rw (by_token (invalidate_token token t) header, by_token t header)
        (rw (authenticate_token-invalidate_token token (header_token header) t) (
          choose (has_prefix header bearer) (header_token header == token)
            (authenticate_token J t (header_token header))))
