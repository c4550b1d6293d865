-- ===== src/Core/Logging.antt =====
-- sprintcore/hclog_logger.go: the levels and the fields of the adapter from hclog to zap.
pub mod Fields
use sprintframework.Common.{ℕ, zero, suc, ◌+◌, ◌-◌, arith}
use sprintframework.Common.{Option, none, some, List, [], ◌∷◌, ◌++◌}
use sprintframework.Common.{Bytes, codes, ◌==◌, nat_eq, bytes_eq, if◌then◌else◌, length, take, drop}
use sprintframework.Common.Dict
use sprintframework.Strconv.{pos, itoa}

-- The levels of hclog, and those of zap.
pub data HclogLevel : Type 0 where
  no_level trace debug info warn error off : HclogLevel

pub data ZapLevel : Type 0 where
  debug_level info_level warn_level error_level d_panic_level panic_level fatal_level other_level :
      ZapLevel

-- `toZapLevel`
abbrev pub to_zap_level : HclogLevel → ZapLevel
to_zap_level trace = debug_level
to_zap_level debug = debug_level
to_zap_level info = info_level
to_zap_level warn = warn_level
to_zap_level error = error_level
to_zap_level off = fatal_level
to_zap_level no_level = info_level

-- `toHCLevel`
abbrev pub to_hc_level : ZapLevel → HclogLevel
to_hc_level debug_level = debug
to_hc_level info_level = info
to_hc_level warn_level = warn
to_hc_level error_level = error
to_hc_level d_panic_level = error
to_hc_level panic_level = error
to_hc_level fatal_level = off
to_hc_level other_level = no_level

-- The method of the adapter that `Log` calls, by the level of zap that it logs at.
abbrev pub log_level : HclogLevel → ZapLevel
log_level debug = debug_level
log_level warn = warn_level
log_level error = error_level
log_level no_level = info_level
log_level info = info_level
log_level off = info_level
log_level trace = info_level

-- An argument: a string, or a value of another type.
pub data Arg (A : Type 0) : Type 0 where
  text : Bytes → Arg A
  other : A → Arg A

-- A name for an argument that has no key.
abbrev pub arg_name : ℕ → Bytes
arg_name i = codes "arg" ++ itoa (pos i)

module _ {A : Type 0} where
  unfoldable pub pair_fields : ℕ → ℕ → Arg A → Arg A → List (Bytes × Arg A)
  pair_fields left i (text k) value = (k, value) ∷ []
  pair_fields left i (other a) value = (arg_name (i - 1), value) ∷ (arg_name left, other a) ∷ []

  -- The fields of one round, over the items from `left` to `i`.
  unfoldable pub item_fields : ℕ → ℕ → List (Arg A) → List (Bytes × Arg A)
  unfolding pair_fields
  item_fields left i [] = []
  item_fields left i (a ∷ []) = (arg_name left, a) ∷ []
  item_fields left i (a ∷ b ∷ []) = pair_fields left i a b
  item_fields left i (a ∷ b ∷ c ∷ more) = []

  -- The loop of `toZapFields`, from the end of the arguments: `i - 2` stops at 0, as `left` does.
  -- Without fuel it has no result.
  unfoldable pub field_loop : ℕ → ℕ → List (Arg A) → Option (List (Bytes × Arg A))
  field_loop zero i args = if i == 0 then some [] else none
  field_loop (suc fuel) i args =
      let rest = field_loop fuel (i - 2) args in
      if i == 0 then some [] else elim rest [
        | none ↦ none
        | some fields ↦
            some (item_fields (i - 2) i (take (i - (i - 2)) (drop (i - 2) args)) ++ fields)
      ]

  -- `toZapFields`
  unfoldable pub to_zap_fields : List (Arg A) → Option (List (Bytes × Arg A))
  to_zap_fields args = field_loop (length args) (length args) args
