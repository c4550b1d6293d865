-- ===== src/Server/Authorization/FirstToken.antt =====
-- The token that the first start prints is the one of an administrator, then and later.
use sprintframework.Common.{
  ℕ, true, Option, none, some, List, [], ◌≡◌, ◌≢◌, refl, sym, ap, ◌∙◌, arith, inl, inr,
  Option-cases, Result-cases,
}
use sprintframework.Common.{Bytes, codes, bytes_eq, Result, ok, err, ==_of_ne}
use sprintframework.Common.Dict
use sprintframework.Utils.Tokens.{
  Encoding, Jwt, AuthError, claims_of, has_role, generate_token, generate_auth_token,
  verify_auth_token,
}
use sprintframework.Utils.Tokens.Users.{verify-generate_auth_token, recovered, mentions_role}
use sprintframework.Server.Authorization.Start.{
  first_user, no_account, not_set, Failing, signed_first, generate_default_auth_token, keyed,
  printed, generated, post_construct,
}

module _ (C : Encoding) (J : Jwt) (E : Type 0) where
  keyed-ok :
      (token printed_token : Option Bytes) (secret key : Bytes)
      → keyed C J E token secret ≡ ok (key, printed_token)
      → (C.decode secret ≡ ok key) × (token ≡ printed_token)
  unfolding keyed
  keyed-ok token printed_token secret key h = elim (Result-cases (C.decode secret)) [
    | inl (k, e) ↦ ground arith
    | inr (x, e) ↦ ground arith
  ]

  first_user-mentions :
      (name : Bytes) (now : ℕ) → mentions_role (first_user name now).roles (codes "ADMIN") ≡ true
  unfolding Dict.lookup bytes_eq
  first_user-mentions name now = refl

  ok_same : (a b : Bytes) → ◌≡◌ {A = Result C.Error Bytes} (ok a) (ok b) → a ≡ b
  ok_same a b h = ground arith

  no_name :
      {e : E} {token : Bytes} → ◌≡◌ {A = Failing C J E Bytes} (err (no_account e)) (ok token) → ⊥
  no_name h = absurd (ground arith)

  not_stored :
      (e : E) (key token : Bytes)
      → ◌≡◌ {A = Failing C J E (Bytes × Option Bytes)} (err (not_set e)) (ok (key, some token))
      → ⊥
  not_stored e key token h = absurd (ground arith)

  no_read :
      (key token : Bytes)
      → ◌≡◌ {A = Option (Failing C J E (Bytes × Option Bytes))} none (some (ok (key, some token)))
      → ⊥
  no_read key token h = absurd (ground arith)

  inside :
      (r : Failing C J E (Bytes × Option Bytes)) (key token : Bytes)
      → ◌≡◌ {A = Option (Failing C J E (Bytes × Option Bytes))}
          (some r)
          (some (ok (key, some token)))
      → r ≡ ok (key, some token)
  inside r key token h = ground arith

  signed_first-ok :
      (r : Result (AuthError J.Error) Bytes) (token : Bytes)
      → signed_first C J E r ≡ ok token
      → r ≡ ok token
  unfolding signed_first
  signed_first-ok (ok t) token h = ground arith
  signed_first-ok (err e) token h = absurd (ground arith)

  generate_default_auth_token-ok :
      (account : Result E Bytes) (now : ℕ) (secret key token : Bytes)
      → C.decode secret ≡ ok key
      → generate_default_auth_token C J E account now secret ≡ ok token
      → (name : Bytes) × (account ≡ ok name)
        × (generate_auth_token J (some key) (some (first_user name now)) ≡ ok token)
  unfolding generate_default_auth_token
  generate_default_auth_token-ok (err e) now secret key token d h =
      absurd (no_name (rw (d, generate_default_auth_token) at h))
  generate_default_auth_token-ok (ok name) now secret key token d h = (
    name,
    refl,
    signed_first-ok (generate_auth_token J (some key) (some (first_user name now))) token
        (rw (d, generate_default_auth_token) at h),
  )

  printed-ok :
      (secret key token : Bytes) (r : Failing C J E Bytes)
      → printed C J E secret r ≡ ok (key, some token)
      → (r ≡ ok token) × (C.decode secret ≡ ok key)
  unfolding printed
  printed-ok secret key token (err e) h = absurd (ground arith)
  printed-ok secret key token (ok t) h =
      let (decoded, same) = keyed-ok (some t) (some token) secret key h in (ground arith, decoded)

  generated-ok :
      (set_property : Bytes → Option E) (account : Result E Bytes) (now : ℕ) (key token : Bytes)
      (r : Result E Bytes)
      → generated C J E set_property account now r ≡ ok (key, some token)
      → (secret : Bytes) × (set_property secret ≡ none)
        × (C.decode secret ≡ ok key)
        × (generate_default_auth_token C J E account now secret ≡ ok token)
  unfolding generated
  generated-ok set_property account now key token (err e) h = absurd (ground arith)
  generated-ok set_property account now key token (ok secret) h =
      elim (Option-cases (set_property secret)) [
        | inl e ↦
            let (made, decoded) =
              printed-ok secret key token (generate_default_auth_token C J E account now secret)
                (rw (e, generated) at h) in
            (secret, e, decoded, made)
        | inr (x, e) ↦ absurd (not_stored x key token (rw (e, generated) at h))
      ]

  post_construct-first :
      (set_property : Bytes → Option E) (account : Result E Bytes) (now : ℕ)
      (reads : List (Result E Bytes)) (key token : Bytes)
      → post_construct C J E set_property account now reads [] ≡ some (ok (key, some token))
      → (r : Result E Bytes) × (generated C J E set_property account now r ≡ ok (key, some token))
  unfolding post_construct bytes_eq
  post_construct-first set_property account now reads key token h =
      elim (Option-cases (generate_token C {E = E} reads)) [
        | inl e ↦ absurd (no_read key token (rw e at h))
        | inr (r, e) ↦ (r, inside _ key token (rw e at h))
      ]

  pub post_construct-later :
      (set_property : Bytes → Option E) (account : Result E Bytes) (now : ℕ)
      (reads : List (Result E Bytes)) (secret key : Bytes)
      → secret ≢ []
      → C.decode secret ≡ ok key
      → post_construct C J E set_property account now reads secret ≡ some (ok (key, none))
  unfolding post_construct keyed
  post_construct-later set_property account now reads secret key ne e =
      rw (==_of_ne secret [] ne) (rw (e, keyed) refl)

  -- If the start finds no secret and succeeds with a key that is not empty and a token, it has stored a secret that
  -- later starts decode to the same key, without making another token. Where jwt takes back what
  -- it has signed for the first user, that key verifies the token as one of the account of the
  -- process with the role ADMIN.
  pub first_token_is_admin :
      (set_property later_set : Bytes → Option E) (account later_account : Result E Bytes)
      (now later : ℕ) (reads later_reads : List (Result E Bytes)) (key token : Bytes)
      → C.decode [] ≡ ok []
      → key ≢ []
      → ((name t : Bytes)
          → J.sign key (claims_of (first_user name now)) ≡ ok t
          → J.parse key t ≡ ok (claims_of (first_user name now), true))
      → post_construct C J E set_property account now reads [] ≡ some (ok (key, some token))
      → (secret name : Bytes) × (set_property secret ≡ none)
        × (post_construct C J E later_set later_account later later_reads secret
            ≡ some (ok (key, none)))
        × (verify_auth_token J (some key) token ≡ ok (recovered J (first_user name now) token))
        × (has_role (recovered J (first_user name now) token).roles (codes "ADMIN") ≡ true)
  first_token_is_admin set_property later_set account later_account now later reads later_reads key
        token empty ne law h =
      let (r, made) = post_construct-first set_property account now reads key token h in
      let (secret, stored, decoded, first) =
        generated-ok set_property account now key token r made in
      let (name, _, signed) =
        generate_default_auth_token-ok account now secret key token decoded first in
      let (verified, roles) =
        verify-generate_auth_token J key (first_user name now) (law name) signed in
      let given : secret ≢ [] = λ e. ne (ok_same key [] (sym decoded ∙ ap C.decode e ∙ empty)) in
      (
        secret,
        name,
        stored,
        post_construct-later later_set later_account later later_reads secret key given decoded,
        verified,
        roles (codes "ADMIN") ∙ first_user-mentions name now,
      )
