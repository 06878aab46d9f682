-- ===== src/Detector/Sample.antt =====
-- The packet metadata that the collectors hand to the detector (internal/detector/types.go).
use Prim.Native.String.{String}
use flowspec_vpp_agent.Prelude.{ℕ}
use flowspec_vpp_agent.Flowspec.{Addr, Family}

-- The name of an ingress interface: `""`, `"ifindex:N"`, or a name given by a caller.
pub data IngressName : Type 0 where
  unnamed : IngressName
  ifindex : ℕ → IngressName
  named : String → IngressName

pub record Sample : Type 0 where
  pub seen_at : ℕ  -- `At`, in nanoseconds
  pub family : Family
  pub src : Addr
  pub dst : Addr
  pub proto : ℕ  -- uint8
  pub src_port : ℕ  -- uint16
  pub dst_port : ℕ  -- uint16
  pub packet_len : ℕ  -- uint16
  pub tcp_flags : ℕ  -- uint8
  pub icmp_type : ℕ  -- uint8
  pub icmp_code : ℕ  -- uint8
  pub ingress_if : IngressName
  pub sample_rate : ℕ  -- uint32
