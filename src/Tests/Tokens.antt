-- ===== src/Tests/Tokens.antt =====
-- Tokens, node ids and file modes.
use sprintframework.Common.{some, ◌≡◌, refl, Bytes, codes, ok, nat_eq, bytes_eq}
use sprintframework.Common.Dict
use sprintframework.Utils.Tokens.{
  Encoding, IsEncoding, generate_auth_token, verify_auth_token, has_role,
}
use sprintframework.Utils.Tokens.Users.{verify-generate_auth_token, recovered, mentions_role}
use sprintframework.Tests.Samples.{one_token, alice}

-- The encoding that writes the bytes as they are.
abbrev plain : Encoding
plain = record { Error = Unit {0}; encode = λ s. s; decode = λ s. ok s }

plain-IsEncoding : IsEncoding plain
plain-IsEncoding = record { decode-encode = λ s. refl }

abbrev letters : Bytes
letters = codes "abcdefghijklmnopqrstuvwxyzABCDEF"

verify-generate_auth_token_example :
    (verify_auth_token one_token (some (codes "k")) (codes "t")
      ≡ ok (recovered one_token alice (codes "t")))
    × ((role : Bytes)
        → has_role (recovered one_token alice (codes "t")).roles role
          ≡ mentions_role alice.roles role)
unfolding Dict.keys generate_auth_token
verify-generate_auth_token_example =
    verify-generate_auth_token one_token (codes "k") alice (λ t h. refl) refl
