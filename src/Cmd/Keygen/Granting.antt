-- ===== src/Cmd/Keygen/Granting.antt =====
-- What a token of the command 'keygen' grants.
use sprintframework.Common.{ℕ, ◌+◌, ◌*◌, ◌≤◌, ◌≡◌, inl, inr, refl, ◌∙◌, arith}
use sprintframework.Common.{Bool, true, some, List, [], ◌∷◌, map}
use sprintframework.Common.{Bytes, nat_eq, bytes_eq, contains, ok}
use sprintframework.Common.{Result-cases}
use sprintframework.Common.Dict
use sprintframework.Common.Dict.{Dict}
use sprintframework.Strings.{split, trim_space}
use sprintframework.Strconv.{ℤ, pos, max_int, atoi}
use sprintframework.Utils.Tokens.{
  Encoding, Jwt, AuthorizedUser, has_role, claims_of, generate_auth_token, verify_auth_token,
  index_roles,
}
use sprintframework.Utils.Tokens.Users.{
  recovered, mentions_role, verify-generate_auth_token, lookup-index_roles,
}
use sprintframework.Cmd.Keygen.{
  signed_word, expiry, described_user, for_days, generated, keygen_auth,
}

expiry-pos :
    (now days : ℕ) → now + days * 86400 ≤ max_int → expiry now (pos days) ≡ pos (now + days * 86400)
unfolding expiry signed_word
expiry-pos now days h = ground (arith, h)

mentions_role-index_roles :
    (roles : List Bytes) (role : Bytes)
    → mentions_role (some (index_roles roles [])) role ≡ contains roles role
mentions_role-index_roles roles role =
    ground (arith, lookup-index_roles roles [] role, Dict.lookup-nil {V = Bool} role)

module _ (C : Encoding) (J : Jwt) where
  keygen_auth-ok :
      (now : ℕ) (secret username roles context days : Bytes) (rest : List Bytes) (key : Bytes)
      (d : ℤ) (token : Bytes)
      → C.decode secret ≡ ok key
      → atoi days ≡ some d
      → keygen_auth C J now secret (username ∷ roles ∷ context ∷ days ∷ rest) ≡ ok token
      → generate_auth_token J
          (some key)
          (some (described_user username roles context (expiry now d)))
        ≡ ok token
  unfolding keygen_auth for_days generated
  keygen_auth-ok now secret username roles context days rest key d token c a h =
      let user = described_user username roles context (expiry now d) in
      elim (Result-cases (generate_auth_token J (some key) (some user))) [
        | inl (t, e) ↦ ground (arith, c, a, h, e)
        | inr (x, e) ↦ absurd (ground (arith, c, a, h, e))
      ]

  -- A token of 'keygen auth' is verified under the secret that was typed, where jwt takes back
  -- what it has signed for the user: it names the user, and grants a role exactly if the role is one of the parts of
  -- the list between its commas, without the blanks around it. It expires that many days later, if
  -- this fits 64 bits.
  pub keygen_auth_grants :
      (now : ℕ) (secret username roles context days : Bytes) (rest : List Bytes) (key : Bytes)
      (n : ℕ) (token : Bytes)
      → ((t : Bytes)
          → J.sign key (claims_of (described_user username roles context (expiry now (pos n))))
            ≡ ok t
          → J.parse key t
            ≡ ok (claims_of (described_user username roles context (expiry now (pos n))), true))
      → C.decode secret ≡ ok key
      → atoi days ≡ some (pos n)
      → now + n * 86400 ≤ max_int
      → keygen_auth C J now secret (username ∷ roles ∷ context ∷ days ∷ rest) ≡ ok token
      → (user : AuthorizedUser) × (verify_auth_token J (some key) token ≡ ok user)
        × (user.username ≡ username)
        × (user.expires_at ≡ pos (now + n * 86400))
        × ((role : Bytes)
            → has_role user.roles role ≡ contains (map trim_space (split roles b',')) role)
  unfolding described_user
  keygen_auth_grants now secret username roles context days rest key n token law c a fits h =
      let user = described_user username roles context (expiry now (pos n)) in
      let (v, r) =
        verify-generate_auth_token J key user law
          (keygen_auth-ok now secret username roles context days rest key (pos n) token c a h) in
      (
        recovered J user token,
        v,
        refl,
        expiry-pos now n fits,
        (λ role. r role ∙ mentions_role-index_roles (map trim_space (split roles b',')) role),
      )
