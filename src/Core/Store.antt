-- ===== src/Core/Store.antt =====
-- The interface of the module keyvalstore, which the code only calls: a data store over an
-- unknown state, and what the code relies on.
pub mod Memory
use sprintframework.Common.{Bool, true, Option, none, List, [], ◌∷◌, ◌≡◌, ◌≢◌, ◌⊎◌, All}
use sprintframework.Common.{Bytes, ◌==◌, bytes_eq, if◌then◌else◌, Result, ok, IsErr}
use sprintframework.Strings.{has_prefix}
use mathlib.Core.List.{Memᴰ}

-- A callback over an accumulator, which also says whether to go on.
abbrev pub Visitor : Type 0 → Type 0
Visitor A = A → Bytes × Bytes → A × Bool

pub record Store : Type 1 where
  pub State : Type 0
  pub Error : Type 0
  -- `Get(ctx).ByRawKey(key).ToString()` or `ToBinary()`
  pub get : State → Bytes → Result Error Bytes
  -- `Set(ctx).ByRawKey(key).String(value)` or `Binary(value)`
  pub set : State → Bytes → Bytes → Option Error × State
  -- `Remove(ctx).ByRawKey(key).Do()`
  pub remove : State → Bytes → Option Error × State
  -- `Enumerate(ctx).ByRawPrefix(prefix).Do(cb)`
  pub enumerate : State → Bytes → (A : Type 0) → Visitor A → A → A × Option Error

-- The callback is called for one entry after the other until it says to stop.
abbrev pub walk : (A : Type 0) → Visitor A → A → List (Bytes × Bytes) → A
walk A visit a [] = a
walk A visit a (e ∷ es) =
    let (b, more) = visit a e in let rest = walk A visit b es in if more then rest else b

pub record IsLawful (S : Store) : Type 1 where
  -- What reading a key gives that is not in the store: nothing, by an error or an empty value.
  pub missing : Result S.Error Bytes
  pub missing_empty : IsErr missing ⊎ (missing ≡ ok [])
  pub get-set :
      (s : S.State) (k v j : Bytes)
      → (S.set s k v).0 ≡ none
      → S.get (S.set s k v).1 j ≡ (if j == k then ok v else S.get s j)
  pub get-remove :
      (s : S.State) (k j : Bytes)
      → (S.remove s k).0 ≡ none
      → S.get (S.remove s k).1 j ≡ (if j == k then missing else S.get s j)
  -- The entries that an enumeration visits, in its order.
  pub entries : S.State → Bytes → List (Bytes × Bytes)
  pub enumerate-walk :
      (s : S.State) (prefix : Bytes) (A : Type 0) (visit : Visitor A) (a : A)
      → (S.enumerate s prefix A visit a).0 ≡ walk A visit a (entries s prefix)
  -- Only entries under the prefix are visited, with the values that reading them gives.
  pub entries_sound :
      (s : S.State) (prefix : Bytes)
      → All (λ (k, v). (has_prefix k prefix ≡ true) × (S.get s k ≡ ok v)) (entries s prefix)
  -- Every entry with a value that stands under the prefix is visited.
  pub entries_complete :
      (s : S.State) (prefix k v : Bytes)
      → has_prefix k prefix ≡ true
      → S.get s k ≡ ok v
      → v ≢ []
      → Memᴰ (k, v) (entries s prefix)
