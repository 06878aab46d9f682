-- ===== src/Semantics/Entries.antt =====
-- The packets that one VPP ACL entry selects, as internal/vpp/types.go describes its fields: the
-- port fields hold ports for TCP and UDP and the type and code for ICMP, protocol 0 is any
-- protocol, and the TCP flags are compared under the mask.
use Prim.Native.Nat.{bit_and}
use flowspec_vpp_agent.Prelude.{ℕ, Bool, true, not, ◌&&◌, ◌||◌, leb, ◌==◌, if◌then◌else◌}
use flowspec_vpp_agent.Semantics.Packets.{Packet, has_ports, tcp, icmp, icmpv6, prefix_contains}
use flowspec_vpp_agent.Vpp.Types.{AclRule}

abbrev pub between : ℕ → ℕ → ℕ → Bool
between first last x = leb first x && leb x last

-- The transport fields of the entry against a packet of the entry's protocol.
unfoldable pub fields_match : AclRule → Packet → Bool
fields_match e p =
    if has_ports p.proto
    then between e.src_port_or_icmp_type_first e.src_port_or_icmp_type_last p.src_port
      && between e.dst_port_or_icmp_code_first e.dst_port_or_icmp_code_last p.dst_port
      && (not (p.proto == tcp) || bit_and p.tcp_flags e.tcp_flags_mask == e.tcp_flags_value)
    else if p.proto == icmp || p.proto == icmpv6
    then between e.src_port_or_icmp_type_first e.src_port_or_icmp_type_last p.icmp_type
      && between e.dst_port_or_icmp_code_first e.dst_port_or_icmp_code_last p.icmp_code
    else true

unfoldable pub entry_matches : AclRule → Packet → Bool
unfolding fields_match
entry_matches e p =
    (if e.is_ipv6 then p.is_ipv6 else not p.is_ipv6)
    && prefix_contains e.dst p.is_ipv6 p.dst
    && prefix_contains e.src p.is_ipv6 p.src
    && (e.proto == 0 || (e.proto == p.proto && fields_match e p))
