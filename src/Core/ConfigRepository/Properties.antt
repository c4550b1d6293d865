-- ===== src/Core/ConfigRepository/Properties.antt =====
-- What a property reads after a change of the configuration.
use sprintframework.Common.{◌≡◌, ◌≢◌, refl, ◌∙◌, arith, [], Option, none, some}
use sprintframework.Common.{
  Bytes, ◌==◌, bytes_eq, if◌then◌else◌, Result, ok, err, inl, inr, Option-cases, IsErr, ◌⊎◌,
}
use sprintframework.Core.Store.{Store, IsLawful}
use sprintframework.Core.ConfigRepository.{
  Repository, raw_key, get, get_property, set, do_set, lift_error,
}
use sprintframework.Core.ConfigRepository.Keys.{eq-raw_key}

module _ (S : Store) (L : IsLawful S) where
  -- What `GetProperty` makes of a reading of the store.
  abbrev shown : Result S.Error Bytes → Option Bytes
  shown (err e) = none
  shown (ok value) = if value == [] then none else some value

  abbrev pub stored : S.State → Bytes → Bytes → Option S.Error × S.State
  stored s key value = if value == [] then S.remove s (raw_key key) else S.set s (raw_key key) value

  get_property_of_store :
      (u : Repository S) (s : S.State) (j : Bytes)
      → u.store ≡ some s
      → get_property S u j ≡ (if u.shutting_down then none else shown (S.get s (raw_key j)))
  unfolding get_property get
  get_property_of_store u s j e = ground arith

  shown_missing : shown L.missing ≡ none
  shown_missing = shown_of_empty L.missing L.missing_empty
    where
      shown_of_empty : (r : Result S.Error Bytes) → IsErr r ⊎ (r ≡ ok []) → shown r ≡ none
      shown_of_empty (err e) h = refl
      shown_of_empty (ok value) (inl h) = absurd h
      shown_of_empty (ok value) (inr h) = ground arith

  shown-stored :
      (s : S.State) (key value j : Bytes)
      → (stored s key value).0 ≡ none
      → shown (S.get (stored s key value).1 (raw_key j)) ≡ (
          if j == key
          then if value == [] then none else some value
          else shown (S.get s (raw_key j)))
  shown-stored s key value j h = ground (
    arith,
    L.get-remove s (raw_key key) (raw_key j),
    L.get-set s (raw_key key) value (raw_key j),
    eq-raw_key j key,
    shown_missing,
  )

  -- The store of the repository behind a successful `Set`.
  pub set_of_store :
      (t : Repository S) (s : S.State) (key value : Bytes)
      → t.store ≡ some s
      → (set S t key value).0 ≡ none
      → ((stored s key value).0 ≡ none)
        × ((set S t key value).1.store ≡ some (stored s key value).1)
        × ((set S t key value).1.shutting_down ≡ t.shutting_down)
  unfolding set do_set
  set_of_store t s key value e h = ground arith

  get_stored :
      (s : S.State) (key value : Bytes)
      → value ≢ []
      → (stored s key value).0 ≡ none
      → S.get (stored s key value).1 (raw_key key) ≡ ok value
  get_stored s key value ne h = ground (arith, L.get-set s (raw_key key) value (raw_key key))

  set_of_nil :
      (t : Repository S) (key value : Bytes) → t.store ≡ none → (set S t key value).0 ≢ none
  unfolding set do_set
  set_of_nil t key value e = ground arith

  -- After a successful `Set` a key reads its new value, or nothing if that is empty or the
  -- repository is shutting down, and every other key reads what it read before.
  pub get_property-set :
      (t : Repository S) (key value j : Bytes)
      → (set S t key value).0 ≡ none
      → get_property S (set S t key value).1 j ≡ (
          if j == key
          then if t.shutting_down then none else if value == [] then none else some value
          else get_property S t j)
  get_property-set t key value j h = elim (Option-cases t.store) [
    | inl e ↦ absurd (set_of_nil t key value e h)
    | inr (s, e) ↦
        let (ok_store, store_eq, down_eq) = set_of_store t s key value e h in
        rw
          (
            get_property_of_store (set S t key value).1 _ j store_eq,
            get_property_of_store t s j e,
            down_eq,
          )
          (rw (shown-stored s key value j ok_store) (ground arith))
  ]

  lifted : (r : Result S.Error Bytes) {v : Bytes} → r ≡ ok v → lift_error S r ≡ ok v
  unfolding lift_error
  lifted (ok a) h = cc
  lifted (err e) h = cc

  get_of_store :
      (u : Repository S) (s : S.State) (key : Bytes)
      → u.store ≡ some s
      → get S u key ≡ lift_error S (S.get s (raw_key key))
  unfolding get
  get_of_store u s key e = ground arith

  -- A value that is not empty reads back.
  pub get-set :
      (t : Repository S) (key value : Bytes)
      → value ≢ []
      → (set S t key value).0 ≡ none
      → get S (set S t key value).1 key ≡ ok value
  get-set t key value ne h = elim (Option-cases t.store) [
    | inl e ↦ absurd (set_of_nil t key value e h)
    | inr (s, e) ↦
        let (ok_store, store_eq, down_eq) = set_of_store t s key value e h in
        get_of_store _ _ key store_eq ∙ lifted _ (get_stored s key value ne ok_store)
  ]
