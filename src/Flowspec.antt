-- ===== src/Flowspec.antt =====
-- internal/flowspec: the rule model (rule.go) and its normalisation (normalize.go). The address and
-- the prefix of Go's net/netip are written out as far as the agent uses them.
pub mod Wire
pub mod Parse
pub mod Actions
use Prim.Native.String.{String}
use flowspec_vpp_agent.Prelude.{ℕ, Bool, true, false, List, if◌then◌else◌}

-- `netip.Addr`: the zero address, an IPv4 or an IPv6 one, by its value in network order.
pub data Addr : Type 0 where
  invalid : Addr
  ip4 : ℕ → Addr
  ip6 : ℕ → Addr

abbrev pub is4 : Addr → Bool
is4 (ip4 _) = true
is4 _ = false

abbrev pub is6 : Addr → Bool
is6 (ip6 _) = true
is6 _ = false

-- `netip.Prefix` of a valid length.
pub record Prefix : Type 0 where
  pub addr : Addr
  pub bits : ℕ

pub data Family : Type 0 where
  family_ipv4 family_ipv6 : Family

pub record NumericOp : Type 0 where
  pub and : Bool
  pub lt : Bool
  pub gt : Bool
  pub eq : Bool
  pub value : ℕ  -- uint64

pub record BitmaskOp : Type 0 where
  pub and : Bool
  pub not : Bool
  pub match : Bool
  pub value : ℕ  -- uint64

pub record Match : Type 0 where
  pub has_dst : Bool
  pub dst : Prefix
  pub dst_offset : ℕ  -- uint8
  pub has_src : Bool
  pub src : Prefix
  pub src_offset : ℕ  -- uint8
  pub proto : List NumericOp
  pub dst_port : List NumericOp
  pub src_port : List NumericOp
  pub icmp_type : List NumericOp
  pub icmp_code : List NumericOp
  pub tcp_flags : List BitmaskOp
  pub fragment : List BitmaskOp
  pub has_generic_port : Bool
  pub has_packet_len : Bool
  pub has_dscp : Bool
  pub has_flow_label : Bool
  pub has_label : Bool
  pub has_unknown_component : Bool

pub data ActionKind : Type 0 where
  action_unknown action_drop action_unsupported : ActionKind

pub record Action : Type 0 where
  pub kind : ActionKind
  pub desc : String

pub record Rule : Type 0 where
  pub family : Family
  pub match : Match
  pub action : Action
  pub raw : String

abbrev pub default_v4 : Prefix
default_v4 = record { addr = ip4 0; bits = 0 }

abbrev pub default_v6 : Prefix
default_v6 = record { addr = ip6 0; bits = 0 }

-- `Family.DefaultPrefix`
unfoldable pub default_prefix : Family → Prefix
default_prefix family_ipv6 = default_v6
default_prefix family_ipv4 = default_v4

-- `Match.DstOrDefault` and `Match.SrcOrDefault`
unfoldable pub dst_or_default : Match → Family → Prefix
dst_or_default m f = if m.has_dst then m.dst else default_prefix f

unfoldable pub src_or_default : Match → Family → Prefix
src_or_default m f = if m.has_src then m.src else default_prefix f
