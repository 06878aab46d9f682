-- ===== src/Vpp/Types.antt =====
-- internal/vpp/types.go and backend.go: ACL entries, the families of the Managed ACLs and the
-- direction in which they are applied.
use flowspec_vpp_agent.Prelude.{ℕ, Bool}
use flowspec_vpp_agent.Flowspec.{Prefix}

-- `Family` of backend.go.
pub data AclFamily : Type 0 where
  acl_ipv4 acl_ipv6 : AclFamily

pub data Direction : Type 0 where
  ingress egress : Direction

pub record AclRule : Type 0 where
  pub is_ipv6 : Bool
  pub permit : Bool
  pub src : Prefix
  pub dst : Prefix
  pub proto : ℕ  -- uint8; 0 stands for any protocol
  pub src_port_or_icmp_type_first : ℕ  -- uint16
  pub src_port_or_icmp_type_last : ℕ  -- uint16
  pub dst_port_or_icmp_code_first : ℕ  -- uint16
  pub dst_port_or_icmp_code_last : ℕ  -- uint16
  pub tcp_flags_mask : ℕ  -- uint8
  pub tcp_flags_value : ℕ  -- uint8
