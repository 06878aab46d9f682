-- ===== src/Flowspec/Parse.antt =====
-- internal/flowspec/parse.go: a GoBGP FlowSpec route turned into a rule.
use Prim.Native.String.{String}
use flowspec_vpp_agent.Prelude.{
  ℕ, ◌/◌, ◌%◌, Bool, true, false, not, Option, none, some, List, [], ◌∷◌, map, ◌==◌, if◌then◌else◌,
}
use flowspec_vpp_agent.Data.Result.{Result, ok, err, ◌>>=◌, require}
use flowspec_vpp_agent.Flowspec.{
  invalid, Prefix, Family, family_ipv4, family_ipv6, NumericOp, BitmaskOp, Match, Action,
  action_unknown, action_drop, action_unsupported, Rule,
}
use flowspec_vpp_agent.Flowspec.Wire.{
  ComponentType, Item, Component, destination_prefix, source_prefix, destination_prefix6,
  source_prefix6, operators, unrecognised, Nlri, ipv4_unicast, ipv6_unicast, not_flowspec,
  Community, traffic_rate, traffic_action, traffic_remark, redirect, other_community, Attribute,
  extended_communities, other_attribute, Library,
}
use flowspec_vpp_agent.Flowspec.Wire

pub data Error : Type 0 where
  not_a_flowspec_nlri bad_prefix : Error

-- The zero value of `Match`
abbrev pub zero_match : Match
zero_match =
    let q : Prefix = record { addr = invalid; bits = 0 } in
    record {
      has_dst = false;
      dst = q;
      dst_offset = 0;
      has_src = false;
      src = q;
      src_offset = 0;
      proto = [];
      dst_port = [];
      src_port = [];
      icmp_type = [];
      icmp_code = [];
      tcp_flags = [];
      fragment = [];
      has_generic_port = false;
      has_packet_len = false;
      has_dscp = false;
      has_flow_label = false;
      has_label = false;
      has_unknown_component = false;
    }

-- `op&(1<<k) != 0`, by the bit's weight
abbrev pub has_bit : ℕ → ℕ → Bool
has_bit op weight = not (op / weight % 2 == 0)

unfoldable pub numeric_op : Item → NumericOp
numeric_op it = record {
  and = has_bit it.op 0x40;
  lt = has_bit it.op 0x04;
  gt = has_bit it.op 0x02;
  eq = has_bit it.op 0x01;
  value = it.value;
}

-- `numericOps`
unfoldable pub numeric_ops : List Item → List NumericOp
numeric_ops items = map numeric_op items

unfoldable pub bitmask_op : Item → BitmaskOp
bitmask_op it = record {
  and = has_bit it.op 0x40;
  not = has_bit it.op 0x02;
  match = has_bit it.op 0x01;
  value = it.value;
}

-- `bitmaskOps`
unfoldable pub bitmask_ops : List Item → List BitmaskOp
bitmask_ops items = map bitmask_op items

-- `parseGenericComponent`
unfoldable pub parse_generic_component : Match → ComponentType → List Item → Match
parse_generic_component m Wire.type_ip_proto items = record m { proto = numeric_ops items }
parse_generic_component m Wire.type_dst_port items = record m { dst_port = numeric_ops items }
parse_generic_component m Wire.type_src_port items = record m { src_port = numeric_ops items }
parse_generic_component m Wire.type_icmp_type items = record m { icmp_type = numeric_ops items }
parse_generic_component m Wire.type_icmp_code items = record m { icmp_code = numeric_ops items }
parse_generic_component m Wire.type_tcp_flag items = record m { tcp_flags = bitmask_ops items }
parse_generic_component m Wire.type_fragment items = record m { fragment = bitmask_ops items }
parse_generic_component m Wire.type_port items = record m { has_generic_port = true }
parse_generic_component m Wire.type_pkt_len items = record m { has_packet_len = true }
parse_generic_component m Wire.type_dscp items = record m { has_dscp = true }
parse_generic_component m Wire.type_label items = record m { has_flow_label = true }
parse_generic_component m Wire.type_other items = record m { has_unknown_component = true }

module _ (lib : Library) where
  -- `parsePrefix`
  unfoldable pub parse_prefix : lib.PrefixNlri → Result Error Prefix
  parse_prefix p = require bad_prefix (lib.parse_prefix p)

  -- The body of the loop of `parseComponents`
  unfoldable pub parse_component : Match → Component lib.PrefixNlri → Result Error Match
  parse_component m (destination_prefix p) = do
    q ← parse_prefix p
    ok (record m { has_dst = true; dst = q })
  parse_component m (source_prefix p) = do
    q ← parse_prefix p
    ok (record m { has_src = true; src = q })
  parse_component m (destination_prefix6 p offset) = do
    q ← parse_prefix p
    ok (record m { has_dst = true; dst = q; dst_offset = offset })
  parse_component m (source_prefix6 p offset) = do
    q ← parse_prefix p
    ok (record m { has_src = true; src = q; src_offset = offset })
  parse_component m (operators t items) = ok (parse_generic_component m t items)
  parse_component m unrecognised = ok (record m { has_unknown_component = true })

  -- `parseComponents`, from the match that is built up
  unfoldable pub parse_components : Match → List (Component lib.PrefixNlri) → Result Error Match
  parse_components m [] = ok m
  parse_components m (c ∷ cs) = do m' ← parse_component m c; parse_components m' cs

-- The variables `foundDrop` and `unsupportedDesc` of `parseAction`; no text that is assigned to the
-- second is empty, so `none` stands for its zero value `""`.
pub record Found : Type 0 where
  pub drop : Bool
  pub unsupported : Option String

unfoldable pub see : Found → Community → Found
see f (traffic_rate true text) = record f { drop = true }
see f (traffic_rate false text) = record f { unsupported = some text }
see f traffic_action = record f { unsupported = some "traffic-action(sample/terminal)" }
see f traffic_remark = record f { unsupported = some "traffic-marking(dscp)" }
see f redirect = record f { unsupported = some "redirect" }
see f other_community = f

unfoldable pub see_all : Found → List Community → Found
see_all f [] = f
see_all f (c ∷ cs) = see_all (see f c) cs

unfoldable pub see_attributes : Found → List Attribute → Found
see_attributes f [] = f
see_attributes f (extended_communities cs ∷ as') = see_attributes (see_all f cs) as'
see_attributes f (other_attribute ∷ as') = see_attributes f as'

-- `parseAction`
unfoldable pub parse_action : List Attribute → Action
parse_action attrs =
    let f = see_attributes (record { drop = false; unsupported = none }) attrs in
    elim (f.unsupported) [
      | some text ↦ record { kind = action_unsupported; desc = text }
      | none ↦
          if f.drop
          then record { kind = action_drop; desc = "traffic-rate=0" }
          else record { kind = action_unknown; desc = "no action" }
    ]

module _ (lib : Library) where
  unfoldable pub parse_family :
      String → Family → List (Component lib.PrefixNlri) → List Attribute → Result Error Rule
  parse_family raw family comps attrs = do
    m ← parse_components lib zero_match comps
    ok (record { family = family; match = m; action = parse_action attrs; raw = raw })

  -- `ParseNLRI`; `raw` is the text of the route.
  unfoldable pub parse_nlri : String → Nlri lib.PrefixNlri → List Attribute → Result Error Rule
  parse_nlri raw (ipv4_unicast comps) attrs = parse_family raw family_ipv4 comps attrs
  parse_nlri raw (ipv6_unicast comps) attrs = parse_family raw family_ipv6 comps attrs
  parse_nlri raw not_flowspec attrs = err not_a_flowspec_nlri
