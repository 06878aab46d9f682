-- ===== src/Semantics/Rules.antt =====
-- The packets that a FlowSpec rule selects (RFC 8955, RFC 8956). Components that the agent does not
-- model select by an unknown predicate, a parameter of every definition here.
use flowspec_vpp_agent.Prelude.{
  ℕ, Bool, true, false, not, ◌&&◌, ◌||◌, List, [], ◌∷◌, ◌==◌, if◌then◌else◌,
}
use flowspec_vpp_agent.Flowspec.{
  Family, family_ipv4, family_ipv6, Prefix, NumericOp, BitmaskOp, Match, Rule,
}
use flowspec_vpp_agent.Semantics.Operators.{ops_hold, bitmask_ops_hold}
use flowspec_vpp_agent.Semantics.Packets.{Packet, has_ports, icmp_of, tcp, prefix_contains}

abbrev pub is_empty {ℓ} : {A : Type ℓ} → List A → Bool
is_empty [] = true
is_empty (x ∷ xs) = false

abbrev pub is_ipv6_family : Family → Bool
is_ipv6_family family_ipv6 = true
is_ipv6_family family_ipv4 = false

-- A component on a field that only some packets have fails on the others.
abbrev pub component : Bool → List NumericOp → ℕ → Bool
component available ops x = is_empty ops || (available && ops_hold ops x)

abbrev pub bitmask_component : Bool → List BitmaskOp → ℕ → Bool
bitmask_component available ops x = is_empty ops || (available && bitmask_ops_hold ops x)

abbrev pub prefix_component : Bool → Prefix → Bool → ℕ → Bool
prefix_component present q is_ipv6 x = not present || prefix_contains q is_ipv6 x

-- Components, and prefix offsets, that have no VPP form.
abbrev pub has_unmodelled : Match → Bool
has_unmodelled m =
    m.has_generic_port
    || m.has_packet_len
    || m.has_dscp
    || m.has_flow_label
    || m.has_label
    || m.has_unknown_component
    || not (is_empty m.fragment)
    || (m.has_dst && not (m.dst_offset == 0))
    || (m.has_src && not (m.src_offset == 0))

unfoldable pub transport_matches : Bool → Match → Packet → Bool
transport_matches is_ipv6 m p =
    ops_hold m.proto p.proto
    && bitmask_component (p.proto == tcp) m.tcp_flags p.tcp_flags
    && component (p.proto == icmp_of is_ipv6) m.icmp_type p.icmp_type
    && component (p.proto == icmp_of is_ipv6) m.icmp_code p.icmp_code
    && component (has_ports p.proto) m.src_port p.src_port
    && component (has_ports p.proto) m.dst_port p.dst_port

module _ (unmodelled : Match → Packet → Bool) where
  unfoldable pub rule_matches : Rule → Packet → Bool
  unfolding transport_matches
  rule_matches r p =
      (if is_ipv6_family r.family then p.is_ipv6 else not p.is_ipv6)
      && prefix_component r.match.has_dst r.match.dst p.is_ipv6 p.dst
      && prefix_component r.match.has_src r.match.src p.is_ipv6 p.src
      && transport_matches (is_ipv6_family r.family) r.match p
      && (not (has_unmodelled r.match) || unmodelled r.match p)
