-- ===== src/Tests/Samples.antt =====
-- Data that the tests share.
use sprintframework.Common.{ℕ, true, false, none, some, [], ◌∷◌, Bytes, codes, ok}
use sprintframework.Common.Dict.{Dict}
use sprintframework.Strconv.{pos}
use sprintframework.Utils.Tokens.{Jwt, AuthorizedUser, UserClaims}
use sprintframework.Core.Store.Memory.{memory_store}
use sprintframework.Core.ConfigRepository.{Repository}
use sprintframework.Server.Authorization.{Middleware, Context}
use sprintframework.Server.Control.{Command, Executor}

abbrev pub alice_claims : UserClaims
alice_claims = record {
  roles = codes "ADMIN" ∷ [];
  context = none;
  id = codes "alice";
  expires_at = pos 99;
}

-- A module jwt whose only token is the one of alice.
abbrev pub one_token : Jwt
one_token = record {
  Error = Unit {0};
  sign = λ key claims. ok (codes "t");
  parse = λ key token. ok (alice_claims, true);
}

abbrev pub alice : AuthorizedUser
alice = record {
  username = codes "alice";
  roles = some ((codes "ADMIN", false) ∷ []);
  context = none;
  expires_at = pos 99;
  token = [];
}

abbrev pub guest : AuthorizedUser
guest = record alice { username = codes "guest"; roles = none }

abbrev pub middleware : Middleware
middleware = record { invalid_tokens = []; secret_key = some (codes "k") }

abbrev pub bearing_alice : Context
bearing_alice = record {
  metadata = some ((codes "authorization", codes "Bearer t" ∷ []) ∷ []);
  user = none;
}

abbrev pub as_guest : Context
as_guest = record { metadata = none; user = some guest }

abbrev pub restart_command : Command
restart_command = record { command = codes "restart"; args = [] }

-- A service whose state counts nothing and which accepts every command.
abbrev pub accepting : Executor
accepting = record { State = ℕ; Error = Unit {0}; execute = λ s command args. (ok command, s) }

-- A repository over these entries, with one watcher of the keys that begin with `a`.
abbrev pub repository : Dict Bytes Bytes → Repository memory_store
repository d = record {
  store = some d;
  watch_num = 1;
  watch_map = (1, record { prefix = codes "a"; cancelled = false }) ∷ [];
  shutting_down = false;
}
