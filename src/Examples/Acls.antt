-- ===== src/Examples/Acls.antt =====
-- Lists of ACLs and of ACL rules of internal/vpp on concrete inputs.
use flowspec_vpp_agent.Prelude.{
  ℕ, ◌≡◌, refl, Bool, true, false, not, ◌||◌, List, [], ◌∷◌, ◌++◌, Option, some, some_eq, ◌==◌,
  arith,
}
use flowspec_vpp_agent.Flowspec.{Prefix, default_v4, default_v6}
use flowspec_vpp_agent.Semantics.Packets.{prefix_contains}
use flowspec_vpp_agent.Vpp.Types.{ingress, egress, acl_ipv4, acl_ipv6}
use flowspec_vpp_agent.Vpp.Acl.{BinRule, permit_any, to_binapi_rule, build_acl_rules}
use flowspec_vpp_agent.Vpp.Acl.Blocklist.{permits, any_matches, IsBlock, build_acl_rules-permits}
use flowspec_vpp_agent.Vpp.Attach.{merge_managed_last}
use flowspec_vpp_agent.Vpp.Attach.Merging.{merge_managed_last_lem, merge_managed_last_twice}
use flowspec_vpp_agent.Translate.Rule.Blocking.{translate-IsBlock}
use flowspec_vpp_agent.Examples.Rules.{
  dns_rule, dns_entry, dns_accepted, packet, packet_well_formed,
}

-- The binary API's prefixes as the prefixes themselves.
abbrev parse : Prefix → Option Prefix
parse q = some q

abbrev dns_block : IsBlock false dns_entry
dns_block = record { family = refl; denies = refl; dst_family = refl; src_family = refl }

abbrev deny_dns : BinRule Prefix
deny_dns = record {
  is_permit = false;
  src = dns_entry.src;
  dst = dns_entry.dst;
  proto = 17;
  srcport_or_icmptype_first = 0;
  srcport_or_icmptype_last = 65535;
  dstport_or_icmpcode_first = 53;
  dstport_or_icmpcode_last = 53;
  tcp_flags_mask = 0;
  tcp_flags_value = 0;
}

abbrev permit_rest : Prefix → BinRule Prefix
permit_rest q = record deny_dns {
  is_permit = true;
  src = q;
  dst = q;
  proto = 0;
  dstport_or_icmpcode_first = 0;
  dstport_or_icmpcode_last = 65535;
}

abbrev out4 : List (BinRule Prefix)
out4 = deny_dns ∷ permit_rest default_v4 ∷ []

abbrev out6 : List (BinRule Prefix)
out6 = permit_rest default_v6 ∷ []

built4 : build_acl_rules parse acl_ipv4 (dns_entry ∷ []) ≡ some out4
unfolding build_acl_rules to_binapi_rule permit_any
built4 = refl

built6 : build_acl_rules parse acl_ipv6 [] ≡ some out6
unfolding build_acl_rules to_binapi_rule permit_any
built6 = refl

build_acl_rules-permits_example :
    permits prefix_contains (out4 ++ out6) packet
    ≡ not (any_matches (dns_entry ∷ []) packet || any_matches [] packet)
build_acl_rules-permits_example =
    build_acl_rules-permits parse prefix_contains (λ q b v6 x e. rw (some_eq e)) (dns_entry ∷ []) []
      out4 out6 packet (dns_block, tt) tt built4 built6 packet_well_formed

-- Managed ACLs 7 and 8, the operator's 1 and 2 as inputs and 3 as an output; 7 is there already.
abbrev managed : ℕ → Bool
managed a = a == 7 || a == 8

merge_managed_last_lem_example :
    merge_managed_last (1 ∷ 7 ∷ 2 ∷ 3 ∷ []) 3 managed (7 ∷ 8 ∷ []) ingress
    ≡ (1 ∷ 2 ∷ 7 ∷ 8 ∷ 3 ∷ [], 4)
merge_managed_last_lem_example =
    merge_managed_last_lem (1 ∷ 7 ∷ 2 ∷ 3 ∷ []) 3 managed (7 ∷ 8 ∷ []) ingress (omega arith)

merge_managed_last_twice_example :
    merge_managed_last
      (merge_managed_last (1 ∷ 2 ∷ 3 ∷ []) 2 managed (7 ∷ 8 ∷ []) egress).0
      (merge_managed_last (1 ∷ 2 ∷ 3 ∷ []) 2 managed (7 ∷ 8 ∷ []) egress).1
      managed
      (7 ∷ 8 ∷ [])
      egress
    ≡ merge_managed_last (1 ∷ 2 ∷ 3 ∷ []) 2 managed (7 ∷ 8 ∷ []) egress
merge_managed_last_twice_example =
    merge_managed_last_twice (1 ∷ 2 ∷ 3 ∷ []) 2 managed (7 ∷ 8 ∷ []) egress (omega arith)
      (refl, (refl, tt))

translate-IsBlock_example : IsBlock false dns_entry
translate-IsBlock_example = translate-IsBlock dns_rule dns_entry dns_accepted
