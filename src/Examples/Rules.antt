-- ===== src/Examples/Rules.antt =====
-- Rules, components and intervals of internal/translate on concrete inputs.
use Prim.Native.Nat.{bit_and}
use flowspec_vpp_agent.Prelude.{
  ℕ, ◌≤◌, ◌≡◌, refl, Bool, true, false, ◌&&◌, ◌||◌, List, [], ◌∷◌, leb, ◌==◌, arith,
}
use flowspec_vpp_agent.Flowspec.{
  ip4, Prefix, Family, family_ipv4, NumericOp, BitmaskOp, Match, Action, action_drop, Rule,
}
use flowspec_vpp_agent.Semantics.Operators.{op_holds, ops_hold, bitmask_ops_hold}
use flowspec_vpp_agent.Semantics.Packets.{Packet, IsWellFormed}
use flowspec_vpp_agent.Semantics.Rules.{rule_matches}
use flowspec_vpp_agent.Semantics.Entries.{entry_matches}
use flowspec_vpp_agent.Translate.Unsupported.{ok}
use flowspec_vpp_agent.Translate.Interval.{
  Interval, interval, normalize, intersect_sets, union_sets,
}
use flowspec_vpp_agent.Translate.Interval.Covers.{
  covers, IsValid, AllValid, covers-normalize, covers-union_sets,
}
use flowspec_vpp_agent.Translate.Interval.Canonical.{
  Canonical, normalize-Canonical, covers-intersect_sets,
}
use flowspec_vpp_agent.Translate.Range.{reduce_range}
use flowspec_vpp_agent.Translate.Range.Sound.{reduce_range_exact}
use flowspec_vpp_agent.Translate.Range.Complete.{reduce_range_complete}
use flowspec_vpp_agent.Translate.Exact.{reduce_exact, reduce_proto, reduce_exact_lem}
use flowspec_vpp_agent.Translate.TcpFlags.{reduce_tcp_flags}
use flowspec_vpp_agent.Translate.TcpFlags.Sound.{reduce_tcp_flags_exact}
use flowspec_vpp_agent.Translate.Rule.{translate}
use flowspec_vpp_agent.Translate.Rule.Equivalence.{translate-exact, translate_proto_zero}
use flowspec_vpp_agent.Vpp.Types.{AclRule}

abbrev numeric : Bool → Bool → Bool → Bool → ℕ → NumericOp
numeric and lt gt eq v = record { and = and; lt = lt; gt = gt; eq = eq; value = v }

abbrev is_eq_to : ℕ → NumericOp
is_eq_to v = numeric false false false true v

-- From 80, and up to 90.
abbrev web_ports : List NumericOp
web_ports = numeric false false true true 80 ∷ numeric true true false true 90 ∷ []

web_range : reduce_range web_ports 65535 ≡ ok (80, 90)
unfolding reduce_range flowspec_vpp_agent.Translate.Interval.op_to_set normalize
    flowspec_vpp_agent.Translate.Interval.sort union_sets intersect_sets
web_range = refl

reduce_range_exact_example :
    (80 ≤ 90) × (90 ≤ 65535) × ((x : ℕ) → x ≤ 65535 → (leb 80 x && leb x 90) ≡ ops_hold web_ports x)
reduce_range_exact_example = reduce_range_exact web_ports 65535 80 90 (omega arith) web_range

reduce_range_complete_example : reduce_range (is_eq_to 53 ∷ []) 65535 ≡ ok (53, 53)
reduce_range_complete_example =
    reduce_range_complete (is_eq_to 53 ∷ []) 65535 53 53 (omega arith) (omega arith, tt)
      (omega arith) (omega arith) (unfold ops_hold op_holds in λ x hx. ground arith)

reduce_exact_lem_example : (6 ≤ 255) × ((x : ℕ) → ops_hold (is_eq_to 6 ∷ []) x ≡ (x == 6))
reduce_exact_lem_example = reduce_exact_lem (is_eq_to 6 ∷ []) 6 (unfold reduce_exact in refl)

-- SYN set and ACK clear.
abbrev syn_only : List BitmaskOp
syn_only =
    record { and = false; not = false; match = true; value = 2 }
    ∷ record { and = true; not = true; match = false; value = 16 }
    ∷ []

reduce_tcp_flags_exact_example : (bit_and 2 18 == 2) ≡ bitmask_ops_hold syn_only 2
reduce_tcp_flags_exact_example =
    reduce_tcp_flags_exact syn_only 2 18 2 (omega arith) (unfold reduce_tcp_flags in refl)

abbrev mixed : List Interval
mixed = interval 20 25 ∷ interval 0 5 ∷ interval 6 9 ∷ []

abbrev valid : (a b : ℕ) → a ≤ b → b ≤ 65535 → IsValid 65535 (interval a b)
valid a b le bound = record { ordered = le; bounded = bound }

abbrev mixed_valid : AllValid 65535 mixed
mixed_valid = (
  valid 20 25 (omega arith) (omega arith),
  (valid 0 5 (omega arith) (omega arith), (valid 6 9 (omega arith) (omega arith), tt)),
)

covers-normalize_example : covers (normalize mixed) 7 ≡ covers mixed 7
covers-normalize_example = covers-normalize 65535 mixed 7 (omega arith) mixed_valid

normalize-Canonical_example : Canonical 65535 (normalize mixed)
normalize-Canonical_example = normalize-Canonical 65535 mixed (omega arith) mixed_valid

covers-intersect_sets_example :
    covers (intersect_sets mixed mixed) 7 ≡ (covers mixed 7 && covers mixed 7)
covers-intersect_sets_example =
    covers-intersect_sets 65535 mixed mixed 7 (omega arith) mixed_valid mixed_valid

covers-union_sets_example : covers (union_sets mixed mixed) 7 ≡ (covers mixed 7 || covers mixed 7)
covers-union_sets_example =
    covers-union_sets 65535 mixed mixed 7 (omega arith) mixed_valid mixed_valid

abbrev any_match : Match
any_match = record {
  has_dst = true;
  dst = record { addr = ip4 3221225984; bits = 24 };
  dst_offset = 0;
  has_src = false;
  src = record { addr = ip4 0; bits = 0 };
  src_offset = 0;
  proto = [];
  dst_port = [];
  src_port = [];
  icmp_type = [];
  icmp_code = [];
  tcp_flags = [];
  fragment = [];
  has_generic_port = false;
  has_packet_len = false;
  has_dscp = false;
  has_flow_label = false;
  has_label = false;
  has_unknown_component = false;
}

abbrev drop_rule : Match → Rule
drop_rule m = record {
  family = family_ipv4;
  match = m;
  action = record { kind = action_drop; desc = "discard" };
  raw = "";
}

-- UDP to port 53 of 192.0.2.0/24.
abbrev pub dns_rule : Rule
dns_rule = drop_rule (record any_match { proto = is_eq_to 17 ∷ []; dst_port = is_eq_to 53 ∷ [] })

abbrev pub dns_entry : AclRule
dns_entry = record {
  is_ipv6 = false;
  permit = false;
  src = record { addr = ip4 0; bits = 0 };
  dst = record { addr = ip4 3221225984; bits = 24 };
  proto = 17;
  src_port_or_icmp_type_first = 0;
  src_port_or_icmp_type_last = 65535;
  dst_port_or_icmp_code_first = 53;
  dst_port_or_icmp_code_last = 53;
  tcp_flags_mask = 0;
  tcp_flags_value = 0;
}

pub dns_accepted : translate dns_rule ≡ ok dns_entry
unfolding translate flowspec_vpp_agent.Translate.Rule.check_action
    flowspec_vpp_agent.Translate.Rule.check_components
    flowspec_vpp_agent.Translate.Rule.check_offset flowspec_vpp_agent.Translate.Rule.check_family
    flowspec_vpp_agent.Translate.Rule.transport flowspec_vpp_agent.Translate.Rule.infer_tcp
    flowspec_vpp_agent.Translate.Rule.infer_icmp flowspec_vpp_agent.Translate.Rule.check_ports
    flowspec_vpp_agent.Translate.Rule.ranges flowspec_vpp_agent.Translate.Rule.entry
    flowspec_vpp_agent.Translate.Rule.icmp_range flowspec_vpp_agent.Flowspec.dst_or_default
    flowspec_vpp_agent.Flowspec.src_or_default flowspec_vpp_agent.Flowspec.default_prefix
    reduce_proto reduce_exact reduce_tcp_flags reduce_range
    flowspec_vpp_agent.Translate.Interval.op_to_set normalize
    flowspec_vpp_agent.Translate.Interval.sort union_sets intersect_sets
dns_accepted = refl

abbrev pub packet : Packet
packet = record {
  is_ipv6 = false;
  src = 167772161;
  dst = 3221225990;
  proto = 17;
  src_port = 4000;
  dst_port = 53;
  icmp_type = 0;
  icmp_code = 0;
  tcp_flags = 0;
}

abbrev pub packet_well_formed : IsWellFormed packet
packet_well_formed = record {
  src_fits = omega arith;
  dst_fits = omega arith;
  src_port_fits = omega arith;
  dst_port_fits = omega arith;
  icmp_type_fits = omega arith;
  icmp_code_fits = omega arith;
  tcp_flags_fits = omega arith;
}

translate-exact_example :
    entry_matches dns_entry packet ≡ rule_matches (λ m p. false) dns_rule packet
translate-exact_example =
    translate-exact (λ m p. false) dns_rule dns_entry packet dns_accepted
      (unfold reduce_proto in λ e. ground arith) packet_well_formed

-- Protocol 0, which the entry takes for any protocol.
abbrev hopopt_rule : Rule
hopopt_rule = drop_rule (record any_match { proto = is_eq_to 0 ∷ [] })

abbrev hopopt_entry : AclRule
hopopt_entry = record dns_entry {
  proto = 0;
  dst_port_or_icmp_code_first = 0;
  dst_port_or_icmp_code_last = 65535;
}

hopopt_accepted : translate hopopt_rule ≡ ok hopopt_entry
unfolding translate flowspec_vpp_agent.Translate.Rule.check_action
    flowspec_vpp_agent.Translate.Rule.check_components
    flowspec_vpp_agent.Translate.Rule.check_offset flowspec_vpp_agent.Translate.Rule.check_family
    flowspec_vpp_agent.Translate.Rule.transport flowspec_vpp_agent.Translate.Rule.infer_tcp
    flowspec_vpp_agent.Translate.Rule.infer_icmp flowspec_vpp_agent.Translate.Rule.check_ports
    flowspec_vpp_agent.Translate.Rule.ranges flowspec_vpp_agent.Translate.Rule.entry
    flowspec_vpp_agent.Translate.Rule.icmp_range flowspec_vpp_agent.Flowspec.dst_or_default
    flowspec_vpp_agent.Flowspec.src_or_default flowspec_vpp_agent.Flowspec.default_prefix
    reduce_proto reduce_exact reduce_tcp_flags reduce_range
    flowspec_vpp_agent.Translate.Interval.op_to_set normalize
    flowspec_vpp_agent.Translate.Interval.sort union_sets intersect_sets
hopopt_accepted = refl

translate_proto_zero_example :
    (rule_matches (λ m p. false) hopopt_rule packet ≡ true → packet.proto ≡ 0)
    × ((q : ℕ)
        → entry_matches hopopt_entry (record packet { proto = q })
          ≡ entry_matches hopopt_entry packet)
translate_proto_zero_example =
    translate_proto_zero (λ m p. false) hopopt_rule hopopt_entry packet hopopt_accepted
      (unfold reduce_proto in refl)
