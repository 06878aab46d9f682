-- ===== src/Semantics/Packets.antt =====
-- A packet as far as rules and ACL entries look at it, and the addresses that a prefix contains.
use flowspec_vpp_agent.Prelude.{
  ℕ, ◌-◌, ◌/◌, ◌^◌, ◌≤◌, ◌<◌, Bool, true, false, ◌||◌, ◌==◌, if◌then◌else◌,
}
use flowspec_vpp_agent.Flowspec.{Addr, invalid, ip4, ip6, Prefix}

-- The fields of a protocol that the packet does not carry are not read.
pub record Packet : Type 0 where
  pub is_ipv6 : Bool
  pub src : ℕ
  pub dst : ℕ
  pub proto : ℕ
  pub src_port : ℕ
  pub dst_port : ℕ
  pub icmp_type : ℕ
  pub icmp_code : ℕ
  pub tcp_flags : ℕ

abbrev pub width : Bool → ℕ
width true = 128
width false = 32

-- Each field fits its place in the headers.
pub record IsWellFormed (p : Packet) : Type 0 where
  pub src_fits : p.src < 2 ^ width p.is_ipv6
  pub dst_fits : p.dst < 2 ^ width p.is_ipv6
  pub src_port_fits : p.src_port ≤ 65535
  pub dst_port_fits : p.dst_port ≤ 65535
  pub icmp_type_fits : p.icmp_type ≤ 255
  pub icmp_code_fits : p.icmp_code ≤ 255
  pub tcp_flags_fits : p.tcp_flags < 2 ^ 8

abbrev pub tcp : ℕ
tcp = 6

abbrev pub udp : ℕ
udp = 17

abbrev pub icmp : ℕ
icmp = 1

abbrev pub icmpv6 : ℕ
icmpv6 = 58

abbrev pub has_ports : ℕ → Bool
has_ports proto = proto == tcp || proto == udp

-- The ICMP of the family.
abbrev pub icmp_of : Bool → ℕ
icmp_of is_ipv6 = if is_ipv6 then icmpv6 else icmp

-- The leading bits of two addresses agree.
abbrev pub same_bits : ℕ → ℕ → ℕ → ℕ → Bool
same_bits w bits a x = a / 2 ^ (w - bits) == x / 2 ^ (w - bits)

abbrev pub addr_contains : Addr → ℕ → Bool → ℕ → Bool
addr_contains invalid bits is_ipv6 x = false
addr_contains (ip4 a) bits is_ipv6 x = if is_ipv6 then false else same_bits 32 bits a x
addr_contains (ip6 a) bits is_ipv6 x = if is_ipv6 then same_bits 128 bits a x else false

unfoldable pub prefix_contains : Prefix → Bool → ℕ → Bool
prefix_contains q is_ipv6 x = addr_contains q.addr q.bits is_ipv6 x
