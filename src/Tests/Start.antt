-- ===== src/Tests/Start.antt =====
-- The first start of the middleware.
use sprintframework.Common.{
  ℕ, true, Option, none, some, [], ◌∷◌, ◌≡◌, refl, sym, ap, arith, Bytes, codes, Result, ok, err,
  bytes_eq, nat_eq,
}
use sprintframework.Strings.{contains_any}
use sprintframework.Utils.Tokens.{
  Encoding, Jwt, claims_of, has_role, generate_token, generate_auth_token, verify_auth_token,
}
use sprintframework.Utils.Tokens.Users.{recovered}
use sprintframework.Server.Authorization.Start.{
  first_user, post_construct, generated, printed, keyed, generate_default_auth_token, signed_first,
}
use sprintframework.Server.Authorization.FirstToken.{first_token_is_admin}

-- A module jwt whose token is the name of the user that it is for.
abbrev names_only : Jwt
names_only = record {
  Error = Unit {0};
  sign = λ key claims. ok claims.id;
  parse = λ key token. ok (claims_of (first_user token 100), true);
}

abbrev plain_text : Encoding
plain_text = record { Error = Unit {0}; encode = λ s. s; decode = λ s. ok s }

abbrev secret : Bytes
secret = codes "abcdefghijklmnopqrstuvwxyzABCDEF"

ok_name : (name t : Bytes) → ◌≡◌ {A = Result (Unit {0}) Bytes} (ok name) (ok t) → name ≡ t
ok_name name t h = ground arith

first_token_is_admin_example :
    (s name : Bytes) × (◌≡◌ {A = Option ℕ} none none)
    × (post_construct plain_text names_only ℕ (λ text. some 1) (err 2) 200 [] s
        ≡ some (ok (secret, none)))
    × (verify_auth_token names_only (some secret) (codes "root")
        ≡ ok (recovered names_only (first_user name 100) (codes "root")))
    × (has_role (recovered names_only (first_user name 100) (codes "root")).roles (codes "ADMIN")
        ≡ true)
unfolding post_construct bytes_eq generate_token contains_any generated printed
    generate_default_auth_token signed_first generate_auth_token keyed
first_token_is_admin_example =
    first_token_is_admin plain_text names_only ℕ (λ text. none) (λ text. some 1) (ok (codes "root"))
      (err 2) 100 200 (ok secret ∷ []) [] secret (codes "root") refl (λ e. absurd (ground arith))
      (λ name t h. ap (λ x. ok (claims_of (first_user x 100), true)) (sym (ok_name name t h))) refl
