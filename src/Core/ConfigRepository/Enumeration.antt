-- ===== src/Core/ConfigRepository/Enumeration.antt =====
-- What an enumeration of the configuration shows.
use sprintframework.Common.{
  ◌+◌, true, ◌≡◌, ◌≢◌, refl, sym, ◌∙◌, ap, arith, List, [], ◌∷◌, none, some,
}
use sprintframework.Common.{
  Bytes, bytes_eq, Result, ok, err, drop, length, All, Option-cases, inl, inr,
}
use sprintframework.Strings.{has_prefix}
use sprintframework.Core.Store.{Store, IsLawful, Visitor, walk}
use sprintframework.Core.ConfigRepository.{
  Repository, raw_key, config_bucket, get, lift_error, enumerate_all,
}
use sprintframework.Core.ConfigRepository.Keys.{raw_key-drop, has_prefix-raw_key}
use mathlib.Core.List.{Memᴰ}

-- The pair that the caller's callback gets for an entry of the store.
abbrev pub stripped : Bytes × Bytes → Bytes × Bytes
stripped (key, value) = (drop (length config_bucket + 1) key, value)

abbrev pub strip_all : List (Bytes × Bytes) → List (Bytes × Bytes)
strip_all [] = []
strip_all (e ∷ es) = stripped e ∷ strip_all es

walk-stripped :
    (A : Type 0) (visit : Visitor A) (a : A) (es : List (Bytes × Bytes))
    → walk A (λ c (key, value). visit c (drop (length config_bucket + 1) key, value)) a es
      ≡ walk A visit a (strip_all es)
walk-stripped A visit a [] = refl
walk-stripped A visit a ((k, v) ∷ es) =
    ground (arith, walk-stripped A visit (visit a (drop 7 k, v)).0 es)

Memᴰ-strip_all :
    (k v : Bytes) (es : List (Bytes × Bytes)) → Memᴰ (raw_key k, v) es → Memᴰ (k, v) (strip_all es)
unfolding raw_key
Memᴰ-strip_all k v [] m = elim m [ ]
Memᴰ-strip_all k v (e ∷ es) (Memᴰ.head h) = Memᴰ.head (ap stripped h)
Memᴰ-strip_all k v (e ∷ es) (Memᴰ.tail m) = Memᴰ.tail (Memᴰ-strip_all k v es m)

module _ (S : Store) (L : IsLawful S) where
  -- The entries that the callback gets, as long as it goes on.
  unfoldable pub config_entries : Repository S → Bytes → List (Bytes × Bytes)
  config_entries t prefix = elim t.store [
    | none ↦ []
    | some s ↦ strip_all (L.entries s (raw_key prefix))
  ]

  -- Every pair under the prefix is a key with the value that `Get` reads.
  abbrev pub IsReadable : Repository S → Bytes → Bytes × Bytes → Type 0
  IsReadable t prefix (key, value) = (has_prefix key prefix ≡ true) × (get S t key ≡ ok value)

  get_of_store :
      (t : Repository S) (s : S.State) (key : Bytes)
      → t.store ≡ some s
      → get S t key ≡ lift_error S (S.get s (raw_key key))
  unfolding get
  get_of_store t s key e = ground arith

  All-IsReadable :
      (t : Repository S) (s : S.State) (prefix : Bytes) (es : List (Bytes × Bytes))
      → t.store ≡ some s
      → All (λ (k, v). (has_prefix k (raw_key prefix) ≡ true) × (S.get s k ≡ ok v)) es
      → All (IsReadable t prefix) (strip_all es)
  unfolding lift_error
  All-IsReadable t s prefix [] e h = tt
  All-IsReadable t s prefix ((k, v) ∷ es) e ((p, g), h) = (
    (
      sym (has_prefix-raw_key (drop 7 k) prefix)
          ∙ ap (λ r. has_prefix r (raw_key prefix)) (raw_key-drop k prefix p)
          ∙ p,
      rw (get_of_store t s (drop 7 k) e, raw_key-drop k prefix p, g),
    ),
    All-IsReadable t s prefix es e h,
  )

  enumerate_all-walk :
      (t : Repository S) (prefix : Bytes) (A : Type 0) (visit : Visitor A) (a : A)
      → (enumerate_all S t prefix A visit a).0 ≡ walk A visit a (config_entries t prefix)
  unfolding enumerate_all config_entries
  enumerate_all-walk t prefix A visit a = elim (Option-cases t.store) [
    | inl e ↦ rw (e, enumerate_all, config_entries)
    | inr (s, e) ↦
        rw (e, enumerate_all, config_entries)
          (L.enumerate-walk s (raw_key prefix) A _ a ∙ walk-stripped A visit a _)
  ]

  config_entries_of_store :
      (t : Repository S) (s : S.State) (prefix : Bytes)
      → t.store ≡ some s
      → config_entries t prefix ≡ strip_all (L.entries s (raw_key prefix))
  unfolding config_entries
  config_entries_of_store t s prefix e = rw (e, config_entries)

  config_entries_of_nil :
      (t : Repository S) (prefix : Bytes) → t.store ≡ none → config_entries t prefix ≡ []
  unfolding config_entries
  config_entries_of_nil t prefix e = rw (e, config_entries)

  config_entries_sound :
      (t : Repository S) (prefix : Bytes) → All (IsReadable t prefix) (config_entries t prefix)
  config_entries_sound t prefix = elim (Option-cases t.store) [
    | inl e ↦ rw (config_entries_of_nil t prefix e) tt
    | inr (s, e) ↦
        rw (config_entries_of_store t s prefix e)
          (All-IsReadable t s prefix _ e (L.entries_sound s (raw_key prefix)))
  ]

  lift_error_ok :
      (r : Result S.Error Bytes) {value : Bytes} → lift_error S r ≡ ok value → r ≡ ok value
  unfolding lift_error
  lift_error_ok (ok v) h = cc
  lift_error_ok (err e) h = cc

  config_entries_complete :
      (t : Repository S) (prefix key value : Bytes)
      → IsReadable t prefix (key, value)
      → value ≢ []
      → Memᴰ (key, value) (config_entries t prefix)
  unfolding get
  config_entries_complete t prefix key value (p, g) ne = elim (Option-cases t.store) [
    | inl e ↦ absurd (ground arith)
    | inr (s, e) ↦ rw (config_entries_of_store t s prefix e) (
        Memᴰ-strip_all key value _ (
          L.entries_complete s (raw_key prefix) (raw_key key) value
            (has_prefix-raw_key key prefix ∙ p) (lift_error_ok _ (sym (get_of_store t s key e) ∙ g))
            ne))
  ]

  -- `EnumerateAll` hands its callback one pair after the other of a fixed list, until the
  -- callback says to stop. Each pair is a key of the configuration under the prefix, with its
  -- bucket stripped, and the value that `Get` reads; and each such key with a value that is not
  -- empty is in the list.
  pub enumerate_all_lem :
      (t : Repository S) (prefix : Bytes)
      → ((A : Type 0) (visit : Visitor A) (a : A)
          → (enumerate_all S t prefix A visit a).0 ≡ walk A visit a (config_entries t prefix))
        × All (IsReadable t prefix) (config_entries t prefix)
        × ((key value : Bytes)
            → IsReadable t prefix (key, value)
            → value ≢ []
            → Memᴰ (key, value) (config_entries t prefix))
  enumerate_all_lem t prefix = (
    λ A visit a. enumerate_all-walk t prefix A visit a,
    config_entries_sound t prefix,
    λ key value. config_entries_complete t prefix key value,
  )
