-- ===== src/App/Flags/Parse.antt =====
-- What Go's package flag makes of the four flags that `RegisterFlags` declares: -d, -v, -n, -p.
-- Numbers after -n are read in decimal.
use sprintframework.Common.{◌+◌, Bool, true, false, Option, none, some, List, [], ◌∷◌}
use sprintframework.Common.{
  Bytes, codes, ◌==◌, bytes_eq, nat_eq, contains, if◌then◌else◌, take, drop,
}
use sprintframework.Common.{Result, ok, err, ◌>>=◌}
use sprintframework.Strings.{index_byte}
use sprintframework.Strconv.{atoi}
use sprintframework.App.Flags.{ApplicationFlags, set_key_value}

pub data FlagError : Type 0 where
  bad_syntax unknown_flag bad_value needs_value : FlagError

-- An argument: the first that is no flag, the end mark, or a flag with its value, if one is
-- attached.
pub data ArgKind : Type 0 where
  plain end_mark malformed : ArgKind
  named : Bytes → Option Bytes → ArgKind

named_flag : Bytes → ArgKind
unfolding nat_eq
named_flag [] = malformed
named_flag (c ∷ s) =
    if c == b'-'
    then malformed
    else if c == b'='
    then malformed
    else elim (index_byte (c ∷ s) b'=') [
      | none ↦ named (c ∷ s) none
      | some i ↦ named (take i (c ∷ s)) (some (drop (i + 1) (c ∷ s)))
    ]

second_dash : Bytes → ArgKind
unfolding named_flag nat_eq index_byte
second_dash [] = plain
second_dash (c ∷ []) = if c == b'-' then end_mark else named_flag (c ∷ [])
second_dash (c ∷ d ∷ s) = if c == b'-' then named_flag (d ∷ s) else named_flag (c ∷ d ∷ s)

unfoldable pub classify : Bytes → ArgKind
unfolding second_dash
classify [] = plain
classify (c ∷ s) = if c == b'-' then second_dash s else plain

parse_bool : Bytes → Option Bool
unfolding bytes_eq
parse_bool s =
    if contains
      (codes "1" ∷ codes "t" ∷ codes "T" ∷ codes "TRUE" ∷ codes "true" ∷ codes "True" ∷ []) s
    then some true
    else if contains
        (codes "0" ∷ codes "f" ∷ codes "F" ∷ codes "FALSE" ∷ codes "false" ∷ codes "False" ∷ []) s
    then some false
    else none

abbrev present {ℓ} :
    {A : Type ℓ} → Option A → (A → ApplicationFlags) → Result FlagError ApplicationFlags
present none f = err bad_value
present (some a) f = ok (f a)

abbrev is_boolean : Bytes → Bool
is_boolean name = contains (codes "d" ∷ codes "v" ∷ []) name

unfoldable pub set_flag : Bytes → Bytes → ApplicationFlags → Result FlagError ApplicationFlags
unfolding parse_bool
set_flag name value t =
    if name == codes "p"
    then ok (record t { properties = set_key_value value t.properties })
    else if name == codes "n"
    then present (atoi value) (λ z. record t { node = some z })
    else if name == codes "d"
    then present (parse_bool value) (λ b. record t { daemon = some b })
    else if name == codes "v"
    then present (parse_bool value) (λ b. record t { verbose = some b })
    else err unknown_flag

-- `Parse`: the flags as set, and the arguments behind them. `pending` is a flag whose value is
-- the next argument.
unfoldable pub parse_flags :
    List Bytes → Option Bytes → ApplicationFlags → Result FlagError (ApplicationFlags × List Bytes)
unfolding classify set_flag
parse_flags [] none t = ok (t, [])
parse_flags [] (some name) t = err needs_value
parse_flags (value ∷ rest) (some name) t = set_flag name value t >>= λ u. parse_flags rest none u
parse_flags (arg ∷ rest) none t = elim (classify arg) [
  | plain ↦ ok (t, arg ∷ rest)
  | end_mark ↦ ok (t, rest)
  | malformed ↦ err bad_syntax
  | named name (some value) ↦ set_flag name value t >>= λ u. parse_flags rest none u
  | named name none ↦
      let waiting = parse_flags rest (some name) t in
      if is_boolean name
      then (set_flag name (codes "true") t >>= λ u. parse_flags rest none u)
      else if contains (codes "n" ∷ codes "p" ∷ []) name
      then waiting
      else err unknown_flag
]
