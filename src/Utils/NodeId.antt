-- ===== src/Utils/NodeId.antt =====
-- sprintutils/tokens.go: the ids of nodes, 48 random bits in hexadecimal digits.
pub mod RoundTrip
use sprintframework.Common.{
  ℕ, ◌+◌, ◌-◌, ◌*◌, ◌/◌, ◌%◌, ◌^◌, ◌&&◌, Option, none, some, [], ◌∷◌, ◌++◌,
}
use sprintframework.Common.{Bytes, codes, if◌then◌else◌, leb, ltb, Result, ok, err, drop}
use sprintframework.Strings.{has_prefix}
use mathlib.Core.Option

abbrev pub node_id_bits : ℕ
node_id_bits = 48

abbrev pub node_id_size : ℕ
node_id_size = node_id_bits / 8

-- A digit of `hex.EncodeToString`.
abbrev pub hex_digit : ℕ → ℕ
hex_digit n = if ltb n 10 then b'0' + n else b'a' + n - 10

unfoldable pub encode_hex : Bytes → Bytes
encode_hex [] = []
encode_hex (b ∷ s) = hex_digit (b / 16) ∷ hex_digit (b % 16) ∷ encode_hex s

-- `GenerateNodeId`, over what the read of the random source gives.
unfoldable pub generate_node_id : {E : Type 0} → Result E Bytes → Result E Bytes
generate_node_id (err e) = err e
generate_node_id (ok blob) = ok (codes "0x" ++ encode_hex blob)

-- The value of a hexadecimal digit in either case.
abbrev pub digit_value : ℕ → Option ℕ
digit_value c =
    if leb b'0' c && leb c b'9'
    then some (c - b'0')
    else if leb b'a' c && leb c b'f'
    then some (c - b'a' + 10)
    else if leb b'A' c && leb c b'F'
    then some (c - b'A' + 10)
    else none

unfoldable pub scan_hex : Bytes → ℕ → Option ℕ
scan_hex [] n = some n
scan_hex (c ∷ s) n = elim (digit_value c) [ none ↦ none | some d ↦ scan_hex s (n * 16 + d) ]

in_bits : Option ℕ → Option ℕ
in_bits none = none
in_bits (some n) = if ltb n (2 ^ node_id_bits) then some n else none

-- `strconv.ParseUint` in base 16 with 48 bits, and `none` for its errors.
parse_uint : Bytes → Option ℕ
unfolding scan_hex in_bits
parse_uint [] = none
parse_uint (c ∷ s) = in_bits (scan_hex (c ∷ s) 0)

-- `ParseNodeId`
unfoldable pub parse_node_id : Bytes → Option ℕ
unfolding parse_uint
parse_node_id node_id =
    parse_uint (if has_prefix node_id (codes "0x") then drop 2 node_id else node_id)
