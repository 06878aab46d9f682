-- ===== src/Examples/Routes.antt =====
-- A rule encoded to a route and parsed again, with a model of the GoBGP functions.
use flowspec_vpp_agent.Prelude.{
  ◌+◌, ◌≡◌, ◌⊎◌, refl, true, false, List, [], ◌∷◌, some, if◌then◌else◌, arith,
}
use flowspec_vpp_agent.Data.Result.{ok, err}
use flowspec_vpp_agent.Flowspec.{
  ip4, Prefix, family_ipv4, Match, Rule, action_drop, action_unsupported, action_unknown,
}
use flowspec_vpp_agent.Flowspec.Wire.{
  Item, Nlri, Library, Sealed, Attribute, extended_communities, other_attribute, traffic_rate,
  other_community,
}
use flowspec_vpp_agent.Flowspec.Parse.{zero_match, parse_nlri, parse_action}
use flowspec_vpp_agent.Flowspec.Actions.{
  parse_action-kind, any, is_drop, is_unsupported, communities,
}
use flowspec_vpp_agent.Bgp.Encode.{encode_nlri, no_components}
use flowspec_vpp_agent.Bgp.Components.{Originated}
use flowspec_vpp_agent.Bgp.RoundTrip.{encode_nlri-parse}

-- The end-of-list bit is set on the last item; every value is one byte long.
new_items : List Item → List Item
new_items [] = []
new_items (i ∷ []) = record { op = i.op + 128; value = i.value } ∷ []
new_items (i ∷ j ∷ is) = i ∷ new_items (j ∷ is)

new_items-Sealed : (items : List Item) → Sealed items (new_items items)
unfolding new_items
new_items-Sealed [] = tt
new_items-Sealed (i ∷ []) = (
  refl,
  record {
    len = 0;
    end = 1;
    len_fits = omega arith;
    end_fits = omega arith;
    extended = omega arith;
  },
  tt,
)
new_items-Sealed (i ∷ j ∷ is) = (
  refl,
  record {
    len = 0;
    end = 0;
    len_fits = omega arith;
    end_fits = omega arith;
    extended = omega arith;
  },
  new_items-Sealed (j ∷ is),
)

-- A prefix NLRI as the prefix that it is made of.
abbrev gobgp : Library
gobgp = record {
  PrefixNlri = Prefix;
  new_ip_prefix = λ bits a. record { addr = a; bits = bits };
  new_ipv6_prefix = λ bits a. record { addr = a; bits = bits };
  parse_prefix = λ q. some q;
  new_items = new_items;
  items_sealed = new_items-Sealed;
  parse_ip_prefix = λ a bits h. refl;
  parse_ipv6_prefix = λ a bits h. refl;
}

-- UDP to port 53 or 123 of 192.0.2.0/24
abbrev rule_match : Match
rule_match = record zero_match {
  has_dst = true;
  dst = record { addr = ip4 3221225984; bits = 24 };
  proto = record { and = false; lt = false; gt = false; eq = true; value = 17 } ∷ [];
  dst_port =
      record { and = false; lt = false; gt = false; eq = true; value = 53 }
      ∷ record { and = false; lt = false; gt = false; eq = true; value = 123 }
      ∷ [];
}

abbrev rule : Rule
rule = record {
  family = family_ipv4;
  match = rule_match;
  action = record { kind = action_drop; desc = "traffic-rate=0" };
  raw = "";
}

rule-Originated : Originated rule
rule-Originated = record {
  dst_kept = ((omega arith, omega arith, omega arith), tt, refl);
  src_kept = (refl, refl);
  no_fragment = refl;
  no_generic_port = refl;
  no_packet_len = refl;
  no_dscp = refl;
  no_flow_label = refl;
  no_label = refl;
  no_unknown = refl;
}

abbrev drop_attributes : List Attribute
drop_attributes =
    other_attribute ∷ extended_communities (other_community ∷ traffic_rate true "" ∷ []) ∷ []

encode_nlri-parse_example :
    ((encode_nlri gobgp rule ≡ err no_components) × (rule.match ≡ zero_match))
    ⊎ ((n : Nlri gobgp.PrefixNlri) × (encode_nlri gobgp rule ≡ ok n)
        × (parse_nlri gobgp "flow" n drop_attributes
            ≡ ok (record {
              family = rule.family;
              match = rule.match;
              action = parse_action drop_attributes;
              raw = "flow";
            })))
encode_nlri-parse_example = encode_nlri-parse gobgp rule "flow" drop_attributes rule-Originated

parse_action-kind_example : (parse_action drop_attributes).kind ≡ (
    if any is_unsupported (communities drop_attributes)
    then action_unsupported
    else if any is_drop (communities drop_attributes)
    then action_drop
    else action_unknown)
parse_action-kind_example = parse_action-kind drop_attributes
