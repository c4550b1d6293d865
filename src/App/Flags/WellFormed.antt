-- ===== src/App/Flags/WellFormed.antt =====
-- The maps of properties that flags can leave: no key twice, no equals sign in a key.
use sprintframework.Common.{[], ◌∷◌}
use sprintframework.Common.{Bytes, bytes_eq}
use sprintframework.Common.{arith, Option-cases, inl, inr}
use sprintframework.Common.Dict
use sprintframework.Common.Dict.{Dict, NodupKeys}
use sprintframework.Strings.{index_byte}
use sprintframework.Strings.Laws.{Lacks, Lacks-take-index_byte, Lacks-of_index_byte}
use sprintframework.App.Flags.{KeyValueFlags, entries, set_key_value}

-- No key of the map holds an equals sign, and none stands twice.
abbrev pub KeysLackEq : Dict Bytes Bytes → Type 0
KeysLackEq [] = Unit
KeysLackEq ((k, _) ∷ m) = Lacks b'=' k × KeysLackEq m

pub record IsWellFormed (f : KeyValueFlags) : Type 0 where
  pub nodup : NodupKeys (entries f)
  pub lack : KeysLackEq (entries f)

insert-KeysLackEq :
    (k v : Bytes) (m : Dict Bytes Bytes)
    → Lacks b'=' k
    → KeysLackEq m
    → KeysLackEq (Dict.insert k v m)
unfolding Dict.insert
insert-KeysLackEq k v [] h _ = (h, tt)
insert-KeysLackEq k v ((j, w) ∷ m) h (hj, hm) = ground (arith, insert-KeysLackEq k v m h hm)

-- Whatever the text after -p, `Set` leaves a map with no key twice and no equals sign in a key.
pub set_key_value-IsWellFormed :
    (value : Bytes) (f : KeyValueFlags) → IsWellFormed f → IsWellFormed (set_key_value value f)
unfolding set_key_value
set_key_value-IsWellFormed value f w = elim (Option-cases (index_byte value b'=')) [
  | inl e ↦
      rw (e, set_key_value)
        (record {
          nodup = Dict.insert-NodupKeys _ _ (entries f) w.nodup;
          lack = insert-KeysLackEq _ _ (entries f) (Lacks-of_index_byte value _ e) w.lack;
        })
  | inr (i, e) ↦
      rw (e, set_key_value)
        (record {
          nodup = Dict.insert-NodupKeys _ _ (entries f) w.nodup;
          lack = insert-KeysLackEq _ _ (entries f) (Lacks-take-index_byte value _ e) w.lack;
        })
]
