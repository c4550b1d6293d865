-- ===== src/Tests/Configuration.antt =====
-- The configuration: properties, enumerations and watchers.
use sprintframework.Common.{
  true, false, none, some, List, [], ◌∷◌, ◌≡◌, ◌≢◌, refl, arith, Bytes, codes, All, contains,
  nat_eq, bytes_eq,
}
use mathlib.Core.List.{Memᴰ}
use sprintframework.Core.Store.{Visitor, walk}
use sprintframework.Common.Dict
use sprintframework.Core.Store.Memory.{memory_store, memory_store-IsLawful}
use sprintframework.Core.ConfigRepository.{Watch, get_property, set, raw_key, do_set, enumerate_all}
use sprintframework.Core.ConfigRepository.Properties.{get_property-set}
use sprintframework.Core.ConfigRepository.Enumeration.{
  enumerate_all_lem, IsReadable, config_entries,
}
use sprintframework.Core.ConfigRepository.Watching.{IsConsistent, set_notifies}
use sprintframework.Core.ConfigRepository.Race.{
  set_never_returns, stuck_state, Reach, here, left, sending, returned,
}
use sprintframework.Core.ConfigRepository.Refinement.{
  Op, read, write, subscribe, close, observed, repository_refines_map,
}
use sprintframework.Tests.Samples.{repository}

get_property-set_example :
    get_property memory_store
      (set memory_store (repository []) (codes "ab") (codes "x")).1
      (codes "ab")
    ≡ some (codes "x")
unfolding set do_set bytes_eq
get_property-set_example =
    get_property-set memory_store memory_store-IsLawful (repository []) (codes "ab") (codes "x")
      (codes "ab") refl

enumerate_all_lem_example :
    let t = repository ((raw_key (codes "ab"), codes "x") ∷ []) in
    ((A : Type 0) (visit : Visitor A) (a : A)
      → (enumerate_all memory_store t (codes "a") A visit a).0
        ≡ walk A visit a ((codes "ab", codes "x") ∷ []))
    × All
        (IsReadable memory_store memory_store-IsLawful t (codes "a"))
        ((codes "ab", codes "x") ∷ [])
    × ((key value : Bytes)
        → IsReadable memory_store memory_store-IsLawful t (codes "a") (key, value)
        → value ≢ []
        → Memᴰ {A = Bytes × Bytes} (key, value) ((codes "ab", codes "x") ∷ []))
unfolding config_entries memory_store-IsLawful sprintframework.Core.Store.Memory.under
    sprintframework.Strings.has_prefix raw_key Dict.lookup bytes_eq
enumerate_all_lem_example =
    enumerate_all_lem memory_store memory_store-IsLawful
      (repository ((raw_key (codes "ab"), codes "x") ∷ [])) (codes "a")

consistent : IsConsistent memory_store (repository [])
consistent = record {
  nodup = (Dict.lookup-nil {V = Watch} 1, tt);
  given = λ h wc e. ground (
    arith,
    Dict.lookup-cons {V = Watch} h 1 (record { prefix = codes "a"; cancelled = false }) [],
    Dict.lookup-nil {V = Watch} h,
  );
}

set_notifies_example :
    contains (set memory_store (repository []) (codes "ab") (codes "x")).2 1 ≡ true
unfolding set do_set bytes_eq Dict.lookup nat_eq sprintframework.Strings.has_prefix
set_notifies_example =
    set_notifies memory_store (repository []) (codes "ab") (codes "x") 1 consistent refl

set_never_returns_example :
    (sending ≢ returned) × Reach (record { watcher = left; setter = sending }) stuck_state
set_never_returns_example = set_never_returns refl (λ e. absurd (ground arith)) here

-- A write is read, a watch changes nothing, and after the end there is nothing to read.
abbrev session : List Op
session =
    write (codes "ab") (codes "x")
    ∷ subscribe (codes "a")
    ∷ read (codes "ab")
    ∷ read (codes "c")
    ∷ close
    ∷ read (codes "ab")
    ∷ []

repository_refines_map_example :
    observed memory_store (repository []) session ≡ some (codes "x") ∷ none ∷ none ∷ []
unfolding bytes_eq get_property sprintframework.Core.ConfigRepository.get Dict.lookup
repository_refines_map_example =
    repository_refines_map memory_store memory_store-IsLawful (λ s k v. refl) (λ s k. refl) session
      (repository []) [] refl refl
