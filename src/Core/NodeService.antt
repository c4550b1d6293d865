-- ===== src/Core/NodeService.antt =====
-- sprintcore/node_service.go: the names of a node, and the time stamps that it issues. The loop
-- of `Issue` is taken apart at its atomic operations, so that calls can interleave.
pub mod Names
pub mod Issuing
pub mod Interleaving
use sprintframework.Common.{ℕ, ◌+◌, ◌%◌, ◌^◌, Option, none, some, List, [], ◌∷◌}
use sprintframework.Common.{Bytes, ◌==◌, nat_eq, bytes_eq, if◌then◌else◌, ltb, Result, ok, err}
use sprintframework.Strconv.{ℤ}
use sprintframework.Utils.Names.{append_node_sequence, append_node_name}
use sprintframework.Utils.NodeId.{generate_node_id, parse_node_id}

pub record NodeConfig : Type 0 where
  pub node_id : Bytes
  pub local_name : Bytes
  pub lan_name : Bytes
  pub wan_name : Bytes
  pub data_center : Bytes

pub record Node : Type 0 where
  pub node_id_hex : Bytes
  pub node_id : ℕ
  pub node_seq : ℤ
  pub local_name : Bytes
  pub lan_name : Bytes
  pub wan_name : Bytes
  pub dc_name : Bytes

pub data NodeError (E : Type 0) : Type 0 where
  generate_failed : E → NodeError E
  set_failed : E → NodeError E
  parse_failed : NodeError E
  hostname_failed : E → NodeError E

or_else : Bytes → Bytes → Bytes
or_else name default = if name == [] then default else name

module _ {E : Type 0} where
  parsed_id : Bytes → Result (NodeError E) (Bytes × ℕ)
  parsed_id hex = elim (parse_node_id hex) [ none ↦ err parse_failed | some n ↦ ok (hex, n) ]

  stored_id : (Bytes → Option E) → Result E Bytes → Result (NodeError E) (Bytes × ℕ)
  unfolding parsed_id
  stored_id set_property (err e) = err (generate_failed e)
  stored_id set_property (ok hex) = elim (set_property hex) [
    | some e ↦ err (set_failed e)
    | none ↦ parsed_id hex
  ]

  -- The id of the property `node.id`, or a generated one that is stored under it.
  unfoldable pub node_identity :
      (Bytes → Option E) → Result E Bytes → Bytes → Result (NodeError E) (Bytes × ℕ)
  unfolding parsed_id stored_id
  node_identity set_property blob configured =
      if configured == []
      then stored_id set_property (generate_node_id blob)
      else parsed_id configured

  named : Bytes → ℤ → NodeConfig → Bytes × ℕ → Bytes → Result (NodeError E) Node
  unfolding or_else
  named application seq config (hex, id) lan = ok (record {
    node_id_hex = hex;
    node_id = id;
    node_seq = seq;
    local_name = or_else config.local_name (append_node_sequence application seq);
    lan_name = lan;
    wan_name = or_else config.wan_name (append_node_name lan config.data_center);
    dc_name = config.data_center;
  })

  on_host : Bytes → ℤ → NodeConfig → Bytes × ℕ → Result E Bytes → Result (NodeError E) Node
  unfolding named or_else
  on_host application seq config identity (err e) = err (hostname_failed e)
  on_host application seq config identity (ok host) =
      named application seq config identity
        (append_node_name (or_else config.local_name (append_node_sequence application seq)) host)

  -- `PostConstruct`, over the storing of the id, the random bytes and the host's name.
  unfoldable pub post_construct :
      (Bytes → Option E)
      → Result E Bytes
      → Result E Bytes
      → Bytes
      → ℤ
      → NodeConfig
      → Result (NodeError E) Node
  unfolding node_identity on_host named
  post_construct set_property blob hostname application seq config =
      elim (node_identity set_property blob config.node_id) [
        | err e ↦ err e
        | ok identity ↦
            if config.lan_name == []
            then on_host application seq config identity hostname
            else named application seq config identity config.lan_name
      ]

-- The two atomic fields that `Issue` works on. The clock is an int32, its bits as a number.
pub record Issuer : Type 0 where
  pub last_timestamp : ℕ
  pub clock : ℕ

-- The clock sequence of a version 1 id of the module uuid: the one of a new id, and what
-- `SetClockSequence` leaves in the id of the bits that it is given.
pub record Sequences : Type 0 where
  pub new : ℕ
  pub kept : ℕ → ℕ

-- Where a call of `Issue` stands, by the time stamp of its id; an issued id has its clock sequence
-- too.
pub data Call : Type 0 where
  looking : ℕ → Call
  counting : ℕ → Call
  swapping : ℕ → ℕ → Call
  resetting : ℕ → Call
  retrying : ℕ → Call
  issued : ℕ → ℕ → Call

module _ (U : Sequences) where
  -- The next atomic operation of a call, at the clock reading `now`.
  unfoldable pub advance : ℕ → Call → Issuer → Call × Issuer
  advance now (looking curr) s =
      if s.last_timestamp == curr then (counting curr, s) else (swapping curr s.last_timestamp, s)
  advance now (counting curr) s =
      let clock = (s.clock + 1) % 2 ^ 32 in (issued curr (U.kept clock), record s { clock = clock })
  advance now (swapping curr old) s =
      if s.last_timestamp == old
      then (resetting curr, record s { last_timestamp = curr })
      else (retrying curr, s)
  advance now (resetting curr) s = (issued curr U.new, record s { clock = 0 })
  advance now (retrying curr) s = (looking (if ltb curr s.last_timestamp then now else curr), s)
  advance now (issued curr sequence) s = (issued curr sequence, s)

  -- A call that nothing interleaves with, for so many operations.
  unfoldable pub run_call : List ℕ → Call → Issuer → Call × Issuer
  run_call [] c s = (c, s)
  run_call (now ∷ more) c s = let (d, t) = advance now c s in run_call more d t
