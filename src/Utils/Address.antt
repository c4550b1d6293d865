-- ===== src/Utils/Address.antt =====
-- `ParseAndAdjustTCPAddr` of sprintutils/node.go, and the address that the servers make of its
-- result. The resolver of net is a parameter: it turns a text into an address of the machine and a
-- port.
pub mod Split
pub mod Bounds
use sprintframework.Common.{ℕ, ◌+◌, ◌-◌, ◌^◌, arith}
use sprintframework.Common.{Bool, true, false, not, ◌||◌, Option, none, some, [], ◌∷◌, ◌++◌}
use sprintframework.Common.{
  Bytes, codes, ◌==◌, nat_eq, bytes_eq, if◌then◌else◌, ltb, leb, take, drop, Result, ok, err,
}
use sprintframework.Common.Dict
use sprintframework.Strings.{index_byte, last_index_byte}
use sprintframework.Common.{ltb, leb}
use sprintframework.Strconv.{ℤ, pos, negsuc, max_int, itoa}

-- Whether the code stands in the text.
abbrev pub holds : ℕ → Bytes → Bool
holds c s = elim (index_byte s c) [ none ↦ false | some i ↦ true ]

-- The part of `SplitHostPort` of net for a host in brackets; `i` is where the last colon stands.
unfoldable pub split_bracketed : Bytes → ℕ → Option (Bytes × Bytes)
split_bracketed hostport i = elim (index_byte hostport b']') [
  | none ↦ none
  | some e ↦
      if not (e + 1 == i) || holds b'[' (drop 1 hostport) || holds b']' (drop (e + 1) hostport)
      then none
      else some (drop 1 (take e hostport), drop (i + 1) hostport)
]

-- The part for a host without brackets.
unfoldable pub split_plain : Bytes → ℕ → Option (Bytes × Bytes)
split_plain hostport i =
    if holds b':' (take i hostport) || holds b'[' hostport || holds b']' hostport
    then none
    else some (take i hostport, drop (i + 1) hostport)

-- `SplitHostPort` of net, without the texts of its errors.
unfoldable pub split_host_port : Bytes → Option (Bytes × Bytes)
split_host_port hostport = elim (last_index_byte hostport b':') [
  | none ↦ none
  | some i ↦
      if take 1 hostport == (b'[' ∷ []) then split_bracketed hostport i else split_plain hostport i
]

pub record TcpAddr : Type 0 where
  pub ip : Bytes
  pub port : ℤ

-- Why there is no address.
pub data AddrError : Type 0 where
  empty_port : Bytes → AddrError
  invalid_address : Bytes → AddrError

-- The text that is resolved.
abbrev pub host_and_port : Bytes → Bytes → Bytes
host_and_port host port = (if host == [] then codes "0.0.0.0" else host) ++ (b':' ∷ port)

-- A port plus a sequence number, as an addition of 64-bit ints.
unfoldable pub adjust : ℕ → ℤ → ℤ
adjust port (pos n) =
    if leb (port + n) max_int then pos (port + n) else negsuc (2 ^ 64 - 1 - (port + n))
adjust port (negsuc n) = if ltb n port then pos (port - (n + 1)) else negsuc (n - port)

-- `ParseAndAdjustTCPAddr`
unfoldable pub parse_and_adjust_tcp_addr :
    (Bytes → Option (Bytes × ℕ)) → Bytes → ℤ → Result AddrError TcpAddr
parse_and_adjust_tcp_addr resolve address seq = elim (split_host_port address) [
  | none ↦ err (empty_port address)
  | some (host, port_text) ↦ elim (resolve (host_and_port host port_text)) [
    | none ↦ err (invalid_address (host_and_port host port_text))
    | some (ip, port) ↦ ok (record { ip = ip; port = adjust port seq })
  ]
]

-- The text of an address that a server listens on: `fmt.Sprintf` with "%s:%d".
unfoldable pub listen_text : TcpAddr → Bytes
listen_text a = a.ip ++ (b':' ∷ itoa a.port)
