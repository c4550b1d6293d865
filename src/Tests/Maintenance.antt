-- ===== src/Tests/Maintenance.antt =====
-- The commands that maintain a store, on a store in memory.
use sprintframework.Common.{
  ℕ, true, Option, none, some, [], ◌∷◌, ◌≡◌, refl, ap, arith, Bytes, codes, Result, ok,
  if◌then◌else◌, bytes_eq, inl, inr, Bool-cases,
}
use sprintframework.Common.Dict
use sprintframework.Common.Dict.{Dict}
use sprintframework.Strings.{has_prefix, has_suffix}
use sprintframework.Core.Store.Memory.{memory_store, memory_store-IsLawful}
use sprintframework.Core.StorageService.{Codec, Storage}
use sprintframework.Core.StorageService.Commands.{Managed, Files, execute_command, drop_command}
use sprintframework.Core.StorageService.Maintenance.{rejected_unchanged, drop_exact, IsDropping}
use mathlib.Core.Option

without : Dict Bytes Bytes → Bytes → Dict Bytes Bytes
without [] prefix = []
without ((k, v) ∷ d) prefix =
    let rest = without d prefix in if has_prefix k prefix then rest else (k, v) ∷ rest

lookup-without :
    (d : Dict Bytes Bytes) (prefix k : Bytes)
    → Dict.lookup k (without d prefix) ≡ (if has_prefix k prefix then none else Dict.lookup k d)
unfolding without
lookup-without [] prefix k = elim (Bool-cases (has_prefix k prefix)) [
  | inl e ↦ rw e (Dict.lookup-nil {V = Bytes} k)
  | inr e ↦ rw e refl
]
lookup-without ((j, v) ∷ d) prefix k = ground (
  arith,
  lookup-without d prefix k,
  Dict.lookup-cons {V = Bytes} k j v d,
  Dict.lookup-cons {V = Bytes} k j v (without d prefix),
)

shown_value : Option Bytes → Result memory_store.Error Bytes
shown_value o = ok (Option.get_or o [])

get-without :
    (s : Dict Bytes Bytes) (prefix k : Bytes)
    → memory_store.get (without s prefix) k
      ≡ (if has_prefix k prefix then ok [] else memory_store.get s k)
unfolding shown_value
get-without s prefix k = elim (Bool-cases (has_prefix k prefix)) [
  | inl e ↦ rw e (ap shown_value {y = none} (rw e at (lookup-without s prefix k)))
  | inr e ↦ rw e (ap shown_value {y = Dict.lookup k s} (rw e at (lookup-without s prefix k)))
]

abbrev managed : Managed memory_store
managed = record {
  Ratio = ℕ;
  parse_ratio = λ text. none;
  compact = λ s r. (none, s);
  drop_with_prefix = λ s prefix. (none, without s prefix);
  drop_all = λ s. (none, []);
  backup = λ s since. (codes "all", ok 1);
  restore = λ s content. (none, s);
}

managed-IsDropping : IsDropping memory_store memory_store-IsLawful managed
unfolding memory_store-IsLawful
managed-IsDropping = record { get-drop_with_prefix = λ s prefix k done. get-without s prefix k }

abbrev files : Files memory_store.Error
files = record {
  State = Dict Bytes Bytes;
  create = λ f path. (none, Dict.insert path [] f);
  write = λ f path content. Dict.insert path content f;
  read = λ f path. ok (Option.get_or (Dict.lookup path f) []);
}

abbrev codec : Codec
codec = record { encode = λ s. s; decode = λ s. some s; matches = λ pattern name. true }

abbrev entries : Dict Bytes Bytes
entries = (codes "a:1", codes "x") ∷ (codes "b:1", codes "y") ∷ []

abbrev storage : Storage memory_store codec
storage = record {
  store_map = (codes "config-store", entries) ∷ [];
  available_stores = codes "config-store" ∷ [];
}

rejected_unchanged_example :
    ((name : Bytes)
      → Dict.lookup name
          (execute_command memory_store codec managed files
            (codes "drop")
            (codes "config-store" ∷ codes "a" ∷ [])
            storage
            []).1.store_map
        ≡ Dict.lookup name storage.store_map)
    × ((execute_command memory_store codec managed files
          (codes "drop")
          (codes "config-store" ∷ codes "a" ∷ [])
          storage
          []).2
        ≡ [])
unfolding execute_command bytes_eq sprintframework.Core.StorageService.Commands.on_store Dict.lookup
    sprintframework.Core.StorageService.Commands.store_command sprintframework.Strings.to_lower
    drop_command has_suffix
rejected_unchanged_example =
    rejected_unchanged memory_store codec managed files (codes "drop")
      (codes "config-store" ∷ codes "a" ∷ []) storage [] tt

drop_exact_example :
    (has_suffix (codes "a:") (codes ":") ≡ true)
    × ((u : Dict Bytes Bytes) × (Dict.lookup
            (codes "config-store")
            (execute_command memory_store codec managed files
              (codes "drop")
              (codes "config-store" ∷ codes "a:" ∷ [])
              storage
              []).1.store_map
          ≡ some u)
        × (memory_store.get u (codes "b:1") ≡ (
            if has_prefix (codes "b:1") (codes "a:")
            then memory_store-IsLawful.missing
            else memory_store.get entries (codes "b:1"))))
unfolding Dict.lookup bytes_eq execute_command sprintframework.Core.StorageService.Commands.on_store
    sprintframework.Core.StorageService.Commands.store_command sprintframework.Strings.to_lower
    drop_command has_suffix sprintframework.Core.StorageService.Commands.done
drop_exact_example =
    drop_exact memory_store memory_store-IsLawful codec managed managed-IsDropping files
      (codes "config-store") (codes "a:") (codes "b:1") entries storage [] refl refl
