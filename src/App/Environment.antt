-- ===== src/App/Environment.antt =====
-- sprintapp/property.go: properties that come from environment variables, with their cache.
-- The environment and the answers at the prompt are functions that each call is given.
pub mod Cache
use sprintframework.Common.{Bool, Option, none, some, List, [], ◌∷◌, ◌++◌}
use sprintframework.Common.{Bytes, codes, ◌==◌, bytes_eq, if◌then◌else◌, length, drop}
use sprintframework.Common.Dict
use sprintframework.Common.Dict.{Dict}
use sprintframework.Strings.{has_prefix, replace_byte, to_upper}

pub record Resolver : Type 0 where
  pub application_name : Bytes
  pub cache : Dict Bytes Bytes

abbrev pub application_prefix : Bytes
application_prefix = codes "application."

-- `toEnv`
unfoldable pub to_env : Resolver → Bytes → Option Bytes
to_env t key =
    if has_prefix key application_prefix
    then some (
        to_upper (
          t.application_name
          ++ (b'_' ∷ replace_byte (drop (length application_prefix) key) b'.' b'_')))
    else none

-- `value, value != ""`
abbrev pub non_empty : Bytes → Option Bytes
non_empty value = if value == [] then none else some value

store : Resolver → Bytes → Bytes → Resolver
store t env value = record t { cache = Dict.insert env value t.cache }

-- `GetProperty`, with `none` for a false `ok`.
unfoldable pub get_property : (Bytes → Bytes) → Resolver → Bytes → Option Bytes × Resolver
unfolding store
get_property getenv t key = elim (to_env t key) [
  | none ↦ (none, t)
  | some env ↦ elim (Dict.lookup env t.cache) [
    | some value ↦ (non_empty value, t)
    | none ↦ (non_empty (getenv env), store t env (getenv env))
  ]
]

-- `PromptProperty`
unfoldable pub prompt_property :
    (Bytes → Bytes) → (Bytes → Bytes) → Resolver → Bytes → Option Bytes × Resolver
unfolding store
prompt_property getenv answer t key = elim (to_env t key) [
  | none ↦ (none, t)
  | some env ↦
      let value = if getenv env == [] then answer env else getenv env in
      (non_empty value, store t env value)
]

listed : Bool → Dict Bytes Bytes → List Bytes
listed with_values [] = []
listed with_values ((k, v) ∷ m) =
    (if with_values then k ++ (b'=' ∷ v) else k) ∷ listed with_values m

-- `Environ`
unfoldable pub environ : Bool → Resolver → List Bytes
unfolding listed
environ with_values t = listed with_values t.cache
