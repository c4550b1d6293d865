-- ===== src/Cmd/Setup.antt =====
-- sprintcmd/setup_cmd.go: the first start of a node. What `GenerateToken` gives, the account of the
-- process, the clock and the texts of errors are what the functions are given. What is printed and the
-- property 'application.boot' are left out.
pub mod Starting
use sprintframework.Common.{ℕ, ◌+◌, ◌*◌, true, Option, none, some, List, [], ◌∷◌}
use sprintframework.Common.{Bytes, codes, ◌==◌, bytes_eq, if◌then◌else◌, Result, ok, err}
use sprintframework.Strconv.{pos}
use sprintframework.Utils.Tokens.{Encoding, Jwt, AuthorizedUser, AuthError, generate_auth_token}
use sprintframework.Core.Store.{Store}
use sprintframework.Core.ConfigRepository.{Repository, Fault, get, set}
use sprintframework.Client.{Failure, plain}
use sprintframework.Cmd.{Cores, do_in_core}

abbrev pub secret_name : Bytes
secret_name = codes "jwt.secret.key"

-- The user that the token is for. Its context is the nil map.
abbrev pub setup_user : Bytes → ℕ → AuthorizedUser
setup_user name now = record {
  username = name;
  roles = some ((codes "USER", true) ∷ (codes "ADMIN", true) ∷ []);
  context = none;
  expires_at = pos (now + 356 * 24 * 3600);
  token = [];
}

-- The texts of the errors.
pub record Texts (E F G : Type 0) : Type 0 where
  pub store : E → Bytes
  pub encoding : F → Bytes
  pub token : G → Bytes

module _ (C : Encoding) (J : Jwt) (S : Store)
    (texts : Texts (Fault S.Error) C.Error (AuthError J.Error)) where
  unfoldable pub decoded : Result C.Error Bytes → Result Failure Bytes
  decoded (ok key) = ok key
  decoded (err e) = err (plain (texts.encoding e))

  unfoldable pub stored :
      Bytes → Option (Fault S.Error) × Repository S × List ℕ → Result Failure Bytes × Repository S
  unfolding decoded
  stored secret (none, u, handles) = (decoded (C.decode secret), u)
  stored secret (some e, u, handles) = (err (plain (texts.store e)), u)

  unfoldable pub made : Result Bytes Bytes → Repository S → Result Failure Bytes × Repository S
  unfolding stored
  made (err e) t = (err (plain e), t)
  made (ok secret) t = stored secret (set S t secret_name secret)

  unfoldable pub key_of :
      Result Bytes Bytes
      → Repository S
      → Result (Fault S.Error) Bytes
      → Result Failure Bytes × Repository S
  unfolding made decoded
  key_of fresh t (err e) = (err (plain (texts.store e)), t)
  key_of fresh t (ok secret) = if secret == [] then made fresh t else (decoded (C.decode secret), t)

  -- The callback in the core: the key of the secret, which is made if there is none.
  unfoldable pub setup_core :
      Result Bytes Bytes → Repository S → Result Failure Bytes × Repository S
  unfolding key_of
  setup_core fresh t = key_of fresh t (get S t secret_name)

  unfoldable pub printed : Bytes → Result (AuthError J.Error) Bytes → Result Failure (Bytes × Bytes)
  printed boot (ok auth) = ok (boot, auth)
  printed boot (err e) = err (plain (texts.token e))

  unfoldable pub signed :
      Bytes → Result Bytes Bytes → ℕ → Result Failure Bytes → Result Failure (Bytes × Bytes)
  unfolding printed
  signed boot account now (err e) = err e
  signed boot (err e) now (ok key) = err (plain e)
  signed boot (ok name) now (ok key) =
      printed boot (generate_auth_token J (some key) (some (setup_user name now)))

  -- `Run`, with what the two calls of `GenerateToken` give: the two tokens that it exports, and
  -- the core that it leaves.
  unfoldable pub setup :
      Result Bytes Bytes
      → Result Bytes Bytes
      → Result Bytes Bytes
      → ℕ
      → Cores (Repository S)
      → Result Failure (Bytes × Bytes) × Option (Repository S)
  unfolding signed setup_core
  setup (err e) fresh account now cores = (err (plain e), none)
  setup (ok boot) fresh account now cores =
      let (r, core) = do_in_core cores (setup_core fresh) in (signed boot account now r, core)
