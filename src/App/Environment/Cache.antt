-- ===== src/App/Environment/Cache.antt =====
-- What the cache of the environment's properties gives: the first value that was read or
-- prompted for stays.
use sprintframework.Common.{◌≡◌}
use sprintframework.Common.{Bytes, bytes_eq, arith, Option-cases, inl, inr}
use sprintframework.Common.Dict
use sprintframework.App.Environment.{Resolver, to_env, get_property, prompt_property}

-- A property that was read once reads the same afterwards, however the environment has changed,
-- and the second reading changes nothing.
pub get_property_stable :
    (getenv getenv' : Bytes → Bytes) (t : Resolver) (key : Bytes)
    → get_property getenv' (get_property getenv t key).1 key ≡ get_property getenv t key
unfolding get_property to_env
get_property_stable getenv getenv' t key = elim (Option-cases (to_env t key)) [
  | inl e ↦ ground arith
  | inr (env, e) ↦ ground (arith, Dict.lookup-insert env env (getenv env) t.cache)
]

-- What was prompted for is what the property reads afterwards, in any environment; the prompt is
-- not asked where the environment has a value.
pub get_property-prompt_property :
    (getenv getenv' answer : Bytes → Bytes) (t : Resolver) (key : Bytes)
    → get_property getenv' (prompt_property getenv answer t key).1 key
      ≡ prompt_property getenv answer t key
unfolding get_property prompt_property to_env
get_property-prompt_property getenv getenv' answer t key = elim (Option-cases (to_env t key)) [
  | inl e ↦ ground arith
  | inr (env, e) ↦ ground (
    arith,
    Dict.lookup-insert env env (getenv env) t.cache,
    Dict.lookup-insert env env (answer env) t.cache,
  )
]
