-- ===== src/Core/NodeService/Names.antt =====
-- The id and the names that a node starts with.
use sprintframework.Common.{Option, none, some, [], ◌≡◌, ℕ, length}
use sprintframework.Common.{Bytes, bytes_eq, Result, ok, All, ==_of_ne, ==_self}
use sprintframework.Strings.{has_prefix}
use sprintframework.Utils.NodeId.{node_id_size, parse_node_id, generate_node_id}
use sprintframework.Utils.NodeId.RoundTrip.{
  IsByte, big_endian, ne_of_parsed, parse-generate_node_id,
}
use sprintframework.Core.NodeService.{node_identity, parsed_id, stored_id}

parsed_id_of_parsed :
    {E : Type 0} (hex : Bytes) (n : ℕ)
    → parse_node_id hex ≡ some n
    → parsed_id {E = E} hex ≡ ok (hex, n)
unfolding parsed_id parse_node_id has_prefix
parsed_id_of_parsed hex n e = rw e

-- A node with no configured id gets one that no later start changes: from the random bytes it
-- stores a text under `node.id`, and a start that finds that text there has the same id, without
-- another one being generated or stored.
pub node_identity_kept :
    {E : Type 0} (set_property other_set : Bytes → Option E) (blob hex : Bytes)
    (other_blob : Result E Bytes)
    → length blob ≡ node_id_size
    → All IsByte blob
    → generate_node_id {E = E} (ok blob) ≡ ok hex
    → set_property hex ≡ none
    → (node_identity set_property (ok blob) [] ≡ ok (hex, big_endian blob 0))
      × (node_identity other_set other_blob hex ≡ ok (hex, big_endian blob 0))
unfolding node_identity stored_id
node_identity_kept {E = E} set_property other_set blob hex other_blob len bytes gen stored =
    let parsed = (parse-generate_node_id {E = E} blob len bytes gen).0 in
    let configured = ==_of_ne hex [] (ne_of_parsed hex (big_endian blob 0) parsed) in
    (
      rw (gen, ==_self {A = Bytes} [], stored, stored_id)
          (parsed_id_of_parsed {E = E} hex (big_endian blob 0) parsed),
      rw configured (parsed_id_of_parsed {E = E} hex (big_endian blob 0) parsed),
    )
