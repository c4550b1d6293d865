-- ===== src/Cmd/Setup/Starting.antt =====
-- A server that starts on what the command 'setup' leaves.
use sprintframework.Common.{
  ℕ, ◌≡◌, ◌≢◌, refl, sym, ap, ◌∙◌, arith, inl, inr, Bool-cases, Result-cases,
}
use sprintframework.Common.{true, Option, none, some, List, []}
use sprintframework.Common.{
  Bytes, codes, ◌==◌, bytes_eq, Result, ok, err, ==_of_ne, eq_of_==, ne_of_==,
}
use sprintframework.Common.Dict
use sprintframework.Utils.Tokens.{
  Encoding, Jwt, AuthError, claims_of, has_role, generate_auth_token, verify_auth_token,
}
use sprintframework.Utils.Tokens.Users.{verify-generate_auth_token, recovered, mentions_role}
use sprintframework.Core.Store.{Store, IsLawful}
use sprintframework.Core.ConfigRepository.{Repository, Fault, get, set}
use sprintframework.Core.ConfigRepository.Properties.{get-set}
use sprintframework.Server.Authorization.Start.{post_construct}
use sprintframework.Server.Authorization.FirstToken.{post_construct-later}
use sprintframework.Client.{Failure}
use sprintframework.Cmd.{do_in_core, in_core}
use sprintframework.Cmd.Fallback.{only}
use sprintframework.Cmd.Setup.{
  secret_name, setup_user, Texts, decoded, stored, made, key_of, setup_core, printed, signed, setup,
}

setup_user-mentions :
    (name : Bytes) (now : ℕ) → mentions_role (setup_user name now).roles (codes "ADMIN") ≡ true
unfolding Dict.lookup bytes_eq
setup_user-mentions name now = refl

module _ (C : Encoding) (J : Jwt) (S : Store)
    (texts : Texts (Fault S.Error) C.Error (AuthError J.Error)) where
  -- The repository holds a secret that decodes to the key, and it is the one that was there.
  abbrev Keeps : Repository S → Repository S → Bytes → Bytes → Type 0
  Keeps t u secret key =
      (get S u secret_name ≡ ok secret)
      × (secret ≢ [])
      × (C.decode secret ≡ ok key)
      × ((s : Bytes) → get S t secret_name ≡ ok s → s ≢ [] → s ≡ secret)

  decoded-ok :
      (r : Result C.Error Bytes) (key : Bytes) → decoded C J S texts r ≡ ok key → r ≡ ok key
  unfolding decoded
  decoded-ok (ok k) key h = ground arith
  decoded-ok (err e) key h = absurd (ground arith)

  stored-ok :
      (secret key : Bytes) (p : Option (Fault S.Error) × Repository S × List ℕ) (u : Repository S)
      → stored C J S texts secret p ≡ (ok key, u)
      → (p.0 ≡ none) × (p.1 ≡ u) × (C.decode secret ≡ ok key)
  unfolding stored
  stored-ok secret key (none, v, handles) u h =
      (refl, ap (λ q. q.1) h, decoded-ok (C.decode secret) key (ap (λ q. q.0) h))
  stored-ok secret key (some e, v, handles) u h = absurd (ground arith)

  setup_core-kept :
      (fresh : Result Bytes Bytes) (t u : Repository S) (secret key : Bytes)
      → get S t secret_name ≡ ok secret
      → secret ≢ []
      → setup_core C J S texts fresh t ≡ (ok key, u)
      → Keeps t u secret key
  unfolding setup_core key_of
  setup_core-kept fresh t u secret key g ne h =
      let e : (decoded C J S texts (C.decode secret), t) ≡ (ok key, u) =
        rw (g, key_of, ==_of_ne secret [] ne) at h in
      (
        ap (λ v. get S v secret_name) (sym (ap (λ q. q.1) e)) ∙ g,
        ne,
        decoded-ok (C.decode secret) key (ap (λ q. q.0) e),
        (λ s f n. ground (arith, sym f ∙ g)),
      )

  setup_core-made :
      (t u : Repository S) (secret key : Bytes)
      → IsLawful S
      → secret ≢ []
      → get S t secret_name ≡ ok []
      → setup_core C J S texts (ok secret) t ≡ (ok key, u)
      → Keeps t u secret key
  unfolding setup_core key_of made bytes_eq
  setup_core-made t u secret key L ne g h =
      let e : stored C J S texts secret (set S t secret_name secret) ≡ (ok key, u) =
        rw (g, key_of) at h in
      let (written, same, d) = stored-ok secret key (set S t secret_name secret) u e in
      (
        ap (λ v. get S v secret_name) (sym same) ∙ get-set S L t secret_name secret ne written,
        ne,
        d,
        (λ s f n. absurd (ground (arith, f, g, n))),
      )

  failed_core :
      (e : Failure) (t u : Repository S) (key : Bytes)
      → ◌≡◌ {A = Result Failure Bytes × Repository S} (err e, t) (ok key, u)
      → ⊥
  failed_core e t u key h = absurd (ground arith)

  setup_core-ok :
      (L : IsLawful S) (fresh : Result Bytes Bytes) (t u : Repository S) (key : Bytes)
      → fresh ≢ ok []
      → setup_core C J S texts fresh t ≡ (ok key, u)
      → (secret : Bytes) × Keeps t u secret key
  unfolding setup_core key_of made bytes_eq
  setup_core-ok L fresh t u key ne h = elim (Result-cases (get S t secret_name)) [
    | inr (x, e) ↦ absurd (failed_core _ t u key (rw (e, key_of) at h))
    | inl (s, e) ↦ elim (Bool-cases (s == [])) [
      | inr n ↦ (s, setup_core-kept fresh t u s key e (ne_of_== s [] n) h)
      | inl y ↦
          let g = e ∙ ap (λ v. ok v) (eq_of_== s [] y) in
          elim (Result-cases fresh) [
            | inr (x, f) ↦ absurd (failed_core _ t u key (rw (g, key_of, f, made) at h))
            | inl (v, f) ↦
                (v, setup_core-made t u v key L (λ q. ne (f ∙ ap (λ w. ok w) q)) g (rw f at h))
          ]
    ]
  ]

  signed-ok :
      (boot made_boot auth : Bytes) (account : Result Bytes Bytes) (now : ℕ)
      (r : Result Failure Bytes)
      → signed C J S texts boot account now r ≡ ok (made_boot, auth)
      → (name key : Bytes) × (account ≡ ok name)
        × (r ≡ ok key)
        × (generate_auth_token J (some key) (some (setup_user name now)) ≡ ok auth)
  unfolding signed printed
  signed-ok boot made_boot auth account now (err e) h = absurd (ground arith)
  signed-ok boot made_boot auth (err e) now (ok key) h = absurd (ground arith)
  signed-ok boot made_boot auth (ok name) now (ok key) h =
      elim (Result-cases (generate_auth_token J (some key) (some (setup_user name now)))) [
        | inl (t, e) ↦ (name, key, refl, refl, ground (arith, e, h))
        | inr (x, e) ↦ absurd (ground (arith, e, h))
      ]

  setup-parts :
      (boot fresh account : Result Bytes Bytes) (now : ℕ) (t u : Repository S)
      (made_boot auth : Bytes)
      → setup C J S texts boot fresh account now (only t) ≡ (ok (made_boot, auth), some u)
      → (b : Bytes) × (signed C J S texts b account now (setup_core C J S texts fresh t).0
          ≡ ok (made_boot, auth))
        × ((setup_core C J S texts fresh t).1 ≡ u)
  unfolding setup do_in_core in_core
  setup-parts (err e) fresh account now t u made_boot auth h = absurd (ground arith)
  setup-parts (ok b) fresh account now t u made_boot auth h =
      (b, ap (λ q. q.0) h, ground (arith, ap (λ q. q.1) h))

  -- If 'setup' succeeds on the only core, whose store obeys its laws, and a secret that it makes is
  -- not empty, then the repository that it leaves holds a secret, which is the one that was there
  -- if there was one. A server that starts with that secret has a key without making a token, and
  -- where jwt takes back what it has signed for the user of 'setup', the key verifies the token
  -- that 'setup' exports as one with the role ADMIN.
  pub setup_token_is_admin :
      (E : Type 0) (L : IsLawful S) (boot fresh account : Result Bytes Bytes) (now : ℕ)
      (t u : Repository S) (boot_token auth : Bytes) (set_property : Bytes → Option E)
      (server_account : Result E Bytes) (later : ℕ) (reads : List (Result E Bytes))
      → fresh ≢ ok []
      → ((key name token : Bytes)
          → J.sign key (claims_of (setup_user name now)) ≡ ok token
          → J.parse key token ≡ ok (claims_of (setup_user name now), true))
      → setup C J S texts boot fresh account now (only t) ≡ (ok (boot_token, auth), some u)
      → (secret key name : Bytes) × (get S u secret_name ≡ ok secret)
        × ((s : Bytes) → get S t secret_name ≡ ok s → s ≢ [] → s ≡ secret)
        × (post_construct C J E set_property server_account later reads secret
            ≡ some (ok (key, none)))
        × (account ≡ ok name)
        × (verify_auth_token J (some key) auth ≡ ok (recovered J (setup_user name now) auth))
        × (has_role (recovered J (setup_user name now) auth).roles (codes "ADMIN") ≡ true)
  setup_token_is_admin E L boot fresh account now t u boot_token auth set_property server_account
        later reads ne law h =
      let (b, made_token, left) = setup-parts boot fresh account now t u boot_token auth h in
      let (name, key, named, core, token) =
        signed-ok b boot_token auth account now (setup_core C J S texts fresh t).0 made_token in
      let (secret, kept) = setup_core-ok L fresh t u key ne (λ i. (core i, left i)) in
      let (held, given, decodes, old) = kept in
      let (verified, roles) =
        verify-generate_auth_token J key (setup_user name now) (law key name) token in
      (
        secret,
        key,
        name,
        held,
        old,
        post_construct-later C J E set_property server_account later reads secret key given decodes,
        named,
        verified,
        roles (codes "ADMIN") ∙ setup_user-mentions name now,
      )
