-- ===== src/Cmd/Keygen.antt =====
-- sprintcmd/keygen_cmd.go: the tokens that the command 'keygen' makes. What is typed as the secret,
-- base64 and jwt are parameters.
pub mod Granting
use sprintframework.Common.{ℕ, ◌+◌, ◌-◌, ◌*◌, ◌%◌, ◌^◌, arith}
use sprintframework.Common.{Option, none, some, List, [], ◌∷◌, map}
use sprintframework.Common.{
  Bytes, nat_eq, bytes_eq, if◌then◌else◌, ltb, take, drop, Result, ok, err,
}
use sprintframework.Common.Dict
use sprintframework.Common.Dict.{Dict}
use sprintframework.Strings.{split, trim_space, index_byte}
use sprintframework.Strconv.{ℤ, pos, negsuc, atoi}
use sprintframework.Utils.Tokens.{
  Encoding, Jwt, AuthorizedUser, AuthError, generate_token, generate_auth_token, index_roles,
}

-- `Split` of the context and the loop over its pairs.
unfoldable pub context_map : List Bytes → Dict Bytes Bytes → Dict Bytes Bytes
context_map [] m = m
context_map (pair ∷ pairs) m = context_map pairs (elim (index_byte pair b'=') [
  | none ↦ Dict.insert pair [] m
  | some i ↦ Dict.insert (take i pair) (drop (i + 1) pair) m
])

-- A 64-bit word as an int.
unfoldable pub signed_word : ℕ → ℤ
signed_word x = if ltb x (2 ^ 63) then pos x else negsuc (2 ^ 64 - 1 - x)

-- `time.Now().Unix() + ttlDays*24*3600`, which wraps around.
unfoldable pub expiry : ℕ → ℤ → ℤ
expiry now (pos days) = signed_word ((now + days * 86400) % 2 ^ 64)
expiry now (negsuc n) = signed_word ((now + (2 ^ 64 - (n + 1) * 86400 % 2 ^ 64)) % 2 ^ 64)

pub data KeygenError (E F : Type 0) : Type 0 where
  usage bad_days : KeygenError E F
  bad_secret : E → KeygenError E F
  not_generated : F → KeygenError E F

-- The user that the arguments describe.
unfoldable pub described_user : Bytes → Bytes → Bytes → ℤ → AuthorizedUser
described_user username roles context expires_at = record {
  username = username;
  roles = some (index_roles (map trim_space (split roles b',')) []);
  context = some (context_map (split context b',') []);
  expires_at = expires_at;
  token = [];
}

module _ (C : Encoding) (J : Jwt) where
  abbrev pub Failed : Type 0
  Failed = KeygenError C.Error (AuthError J.Error)

  unfoldable pub generated : Result (AuthError J.Error) Bytes → Result Failed Bytes
  generated (ok token) = ok token
  generated (err e) = err (not_generated e)

  unfoldable pub for_days : ℕ → Bytes → Bytes → Bytes → Bytes → Option ℤ → Result Failed Bytes
  unfolding generated
  for_days now key username roles context none = err bad_days
  for_days now key username roles context (some days) = generated (
      generate_auth_token J (some key)
        (some (described_user username roles context (expiry now days))))

  -- `generateAuthToken`, at a time and with the secret that is typed.
  unfoldable pub keygen_auth : ℕ → Bytes → List Bytes → Result Failed Bytes
  unfolding for_days
  keygen_auth now secret (username ∷ roles ∷ context ∷ days ∷ rest) = elim (C.decode secret) [
    | err e ↦ err (bad_secret e)
    | ok key ↦ for_days now key username roles context (atoi days)
  ]
  keygen_auth now secret args = err usage

  -- `generateBootstrapToken`
  unfoldable pub keygen_boot : {E : Type 0} → List (Result E Bytes) → Option (Result E Bytes)
  keygen_boot reads = generate_token C reads
