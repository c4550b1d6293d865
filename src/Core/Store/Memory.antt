-- ===== src/Core/Store/Memory.antt =====
-- A store in memory, which meets the assumptions.
use sprintframework.Common.{true, none, List, [], ◌∷◌, ◌≡◌, ◌≢◌, refl, All, inr, arith}
use sprintframework.Common.{Bytes, bytes_eq, if◌then◌else◌, Result, ok, inl, sym, ◌∙◌, Bool-cases}
use sprintframework.Common.Dict
use sprintframework.Common.Dict.{Dict}
use sprintframework.Strings.{has_prefix}
use sprintframework.Core.Store.{Store, IsLawful, walk}
use sprintframework.Common.{◌==◌}
use mathlib.Core.List.{Memᴰ}
use mathlib.Core.Option

abbrev value : Dict Bytes Bytes → Bytes → Bytes
value d k = Option.get_or (Dict.lookup k d) []

-- The keys under the prefix with their values in `d`.
unfoldable pub under : Dict Bytes Bytes → Bytes → Dict Bytes Bytes → List (Bytes × Bytes)
under d prefix [] = []
under d prefix ((k, v) ∷ rest) =
    let more = under d prefix rest in if has_prefix k prefix then (k, value d k) ∷ more else more

abbrev pub memory_store : Store
memory_store = record {
  State = Dict Bytes Bytes;
  Error = Unit {0};
  get = λ d k. ok (value d k);
  set = λ d k v. (none, Dict.insert k v d);
  remove = λ d k. (none, Dict.erase k d);
  enumerate = λ d prefix A visit a. (walk A visit a (under d prefix d), none);
}

pub under_sound :
    (d rest : Dict Bytes Bytes) (prefix : Bytes)
    → All
        (λ (k, v).
          (has_prefix k prefix ≡ true)
          × (◌≡◌ {A = Result (Unit {0}) Bytes} (ok (value d k)) (ok v)))
        (under d prefix rest)
unfolding under
under_sound d [] prefix = tt
under_sound d ((k, v) ∷ rest) prefix = elim (Bool-cases (has_prefix k prefix)) [
  | inl e ↦ rw (e, under) ((e, refl), under_sound d rest prefix)
  | inr e ↦ rw (e, under) (under_sound d rest prefix)
]

under_complete :
    (d rest : Dict Bytes Bytes) (prefix k : Bytes)
    → has_prefix k prefix ≡ true
    → value rest k ≢ []
    → Memᴰ (k, value d k) (under d prefix rest)
unfolding under Dict.lookup
under_complete d [] prefix k h ne = absurd (ne refl)
under_complete d ((j, v) ∷ rest) prefix k h ne = elim (bytes_eq.dec k j) [
  | yes p ↦ rw (sym p) (rw h (Memᴰ.head refl))
  | no n ↦
      let found = under_complete d rest prefix k h (λ q. ne (ground arith)) in
      elim (Bool-cases (has_prefix j prefix)) [
        | inl e ↦ rw e (Memᴰ.tail found)
        | inr e ↦ rw e found
      ]
]

pub entries_found :
    (d : Dict Bytes Bytes) (prefix k v : Bytes)
    → has_prefix k prefix ≡ true
    → ◌≡◌ {A = Result (Unit {0}) Bytes} (ok (value d k)) (ok v)
    → v ≢ []
    → Memᴰ (k, v) (under d prefix d)
entries_found d prefix k v h e ne =
    let same : value d k ≡ v = cc in
    rw same at (under_complete d d prefix k h (λ q. ne (sym same ∙ q)))

pub value-insert :
    (j k v : Bytes) (d : Dict Bytes Bytes)
    → memory_store.get (Dict.insert k v d) j ≡ (if j == k then ok v else memory_store.get d j)
value-insert j k v d = ground (arith, Dict.lookup-insert j k v d)

pub value-erase :
    (j k : Bytes) (d : Dict Bytes Bytes)
    → memory_store.get (Dict.erase k d) j ≡ (if j == k then ok [] else memory_store.get d j)
value-erase j k d = ground (arith, Dict.lookup-erase j k d)

-- The store in memory meets the assumptions.
unfoldable pub memory_store-IsLawful : IsLawful memory_store
memory_store-IsLawful = record {
  missing = ok [];
  missing_empty = inr refl;
  get-set = λ d k v j _. value-insert j k v d;
  get-remove = λ d k j _. value-erase j k d;
  entries = λ d prefix. under d prefix d;
  enumerate-walk = λ d prefix A visit a. refl;
  entries_sound = λ d prefix. under_sound d d prefix;
  entries_complete = λ d prefix k v h e ne. entries_found d prefix k v h e ne;
}
