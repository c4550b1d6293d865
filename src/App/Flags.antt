-- ===== src/App/Flags.antt =====
-- sprintapp/application_flags.go: the flags that every application has, and their way into the
-- command line of a child process.
pub mod Parse
pub mod WellFormed
pub mod RoundTrip
use sprintframework.Common.{◌+◌, Bool, false, Option, none, some, List, [], ◌∷◌, ◌++◌}
use sprintframework.Common.{Bytes, codes, ◌==◌, bytes_eq, if◌then◌else◌, take, drop}
use sprintframework.Common.Dict
use sprintframework.Common.Dict.{Dict}
use sprintframework.Strings.{index_byte}
use sprintframework.Strconv.{ℤ, pos, itoa, is_positive}

-- `keyValueFlags`: `none` is the nil map.
abbrev pub KeyValueFlags : Type 0
KeyValueFlags = Option (Dict Bytes Bytes)

-- The entries of a map that may be nil, as `range` and an index expression see them.
abbrev pub entries : KeyValueFlags → Dict Bytes Bytes
entries none = []
entries (some m) = m

unfoldable pub new_key_value_flags : KeyValueFlags
new_key_value_flags = some []

-- `Set`, which makes a map if there is none and never fails.
unfoldable pub set_key_value : Bytes → KeyValueFlags → KeyValueFlags
set_key_value value f = elim (index_byte value b'=') [
  | none ↦ some (Dict.insert value [] (entries f))
  | some i ↦ some (Dict.insert (take i value) (drop (i + 1) value) (entries f))
]

-- A pointer field is `none` until `register_flags` has set it.
pub record ApplicationFlags : Type 0 where
  pub daemon : Option Bool
  pub verbose : Option Bool
  pub node : Option ℤ
  pub priority : ℤ
  pub properties : KeyValueFlags

unfoldable pub new_flags : ℤ → ApplicationFlags
unfolding new_key_value_flags
new_flags priority = record {
  daemon = none;
  verbose = none;
  node = none;
  priority = priority;
  properties = new_key_value_flags;
}

-- `RegisterFlags`: each pointer leads to its default.
unfoldable pub register_flags : ApplicationFlags → ApplicationFlags
register_flags t = record t { daemon = some false; verbose = some false; node = some (pos 0) }

abbrev deref {ℓ} : {A : Type ℓ} → Option A → A → A
deref none default = default
deref (some a) default = a

unfoldable pub daemon : ApplicationFlags → Bool
daemon t = deref t.daemon false

unfoldable pub verbose : ApplicationFlags → Bool
verbose t = deref t.verbose false

unfoldable pub node : ApplicationFlags → ℤ
node t = deref t.node (pos 0)

-- The loop over the properties. The empty key is passed over.
unfoldable pub property_args : Dict Bytes Bytes → List Bytes
property_args [] = []
property_args ((k, v) ∷ m) =
    let rest = property_args m in if k == [] then rest else codes "-p" ∷ (k ++ (b'=' ∷ v)) ∷ rest

-- `RegisterServerArgs`
unfoldable pub register_server_args : ApplicationFlags → List Bytes → List Bytes
unfolding verbose node property_args
register_server_args t args =
    let args1 = if verbose t then args ++ (codes "-v" ∷ []) else args in
    let args2 =
      if is_positive (node t) then args1 ++ (codes "-n" ∷ itoa (node t) ∷ []) else args1 in
    args2 ++ property_args (entries t.properties)

-- `GetProperty`
unfoldable pub get_property : ApplicationFlags → Bytes → Option Bytes
get_property t key = elim t.properties [ none ↦ none | some m ↦ Dict.lookup key m ]
