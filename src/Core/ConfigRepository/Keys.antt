-- ===== src/Core/ConfigRepository/Keys.antt =====
-- The keys of the config bucket in the store.
use sprintframework.Common.{◌+◌, true, ◌≡◌, refl, ap}
use sprintframework.Common.{Bytes, ◌==◌, bytes_eq, ==_of_eq, ==_of_ne, drop, length, sym, ◌∙◌}
use sprintframework.Strings.{has_prefix}
use sprintframework.Strings.Laws.{has_prefix_split}
use sprintframework.Core.ConfigRepository.{raw_key, config_bucket}

pub raw_key-injective : (j k : Bytes) → raw_key j ≡ raw_key k → j ≡ k
unfolding raw_key
raw_key-injective j k h = ap (drop 7) h

pub eq-raw_key : (j k : Bytes) → (raw_key j == raw_key k) ≡ (j == k)
eq-raw_key j k = elim (bytes_eq.dec j k) [
  | yes e ↦ ==_of_eq _ _ (ap raw_key e) ∙ sym (==_of_eq j k e)
  | no n ↦ ==_of_ne _ _ (λ e. n (raw_key-injective j k e)) ∙ sym (==_of_ne j k n)
]

-- Behind the bucket's name and its colon stands the key.
pub drop-raw_key : (key : Bytes) → drop (length config_bucket + 1) (raw_key key) ≡ key
unfolding raw_key
drop-raw_key key = refl

pub has_prefix-raw_key :
    (key prefix : Bytes) → has_prefix (raw_key key) (raw_key prefix) ≡ has_prefix key prefix
unfolding raw_key has_prefix
has_prefix-raw_key key prefix = refl

-- A key of the store under a prefix in the bucket is the raw key of what an enumeration hands on.
pub raw_key-drop :
    (key prefix : Bytes)
    → has_prefix key (raw_key prefix) ≡ true
    → raw_key (drop (length config_bucket + 1) key) ≡ key
unfolding raw_key
raw_key-drop key prefix h = rw (has_prefix_split key (raw_key prefix) h)
