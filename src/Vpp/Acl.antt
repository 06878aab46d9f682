-- ===== src/Vpp/Acl.antt =====
-- internal/vpp/acl.go and convert.go: the rules that `ReplaceACL` sends for a Managed ACL.
pub mod Blocklist
use flowspec_vpp_agent.Prelude.{
  ℕ, Bool, true, false, List, [], ◌∷◌, ◌++◌, Option, none, some, ◌==◌, not, if◌then◌else◌,
}
use flowspec_vpp_agent.Flowspec.{Prefix, default_v4, default_v6}
use flowspec_vpp_agent.Vpp.Types.{AclFamily, acl_ipv4, acl_ipv6, AclRule}

-- `acl_types.ACLRule` of the binary API, over its type of prefixes.
pub record BinRule (P : Type 0) : Type 0 where
  pub is_permit : Bool
  pub src : P
  pub dst : P
  pub proto : ℕ
  pub srcport_or_icmptype_first : ℕ
  pub srcport_or_icmptype_last : ℕ
  pub dstport_or_icmpcode_first : ℕ
  pub dstport_or_icmpcode_last : ℕ
  pub tcp_flags_mask : ℕ
  pub tcp_flags_value : ℕ

abbrev pub is_acl_ipv6 : AclFamily → Bool
is_acl_ipv6 acl_ipv6 = true
is_acl_ipv6 acl_ipv4 = false

-- `permitAny`
unfoldable pub permit_any : AclFamily → AclRule
permit_any f = record {
  is_ipv6 = is_acl_ipv6 f;
  permit = true;
  src = if is_acl_ipv6 f then default_v6 else default_v4;
  dst = if is_acl_ipv6 f then default_v6 else default_v4;
  proto = 0;
  src_port_or_icmp_type_first = 0;
  src_port_or_icmp_type_last = 65535;
  dst_port_or_icmp_code_first = 0;
  dst_port_or_icmp_code_last = 65535;
  tcp_flags_mask = 0;
  tcp_flags_value = 0;
}

module _ {P : Type 0} where
  abbrev bin_rule : AclRule → P → P → BinRule P
  bin_rule r dst src = record {
    is_permit = r.permit;
    src = src;
    dst = dst;
    proto = r.proto;
    srcport_or_icmptype_first = r.src_port_or_icmp_type_first;
    srcport_or_icmptype_last = r.src_port_or_icmp_type_last;
    dstport_or_icmpcode_first = r.dst_port_or_icmp_code_first;
    dstport_or_icmpcode_last = r.dst_port_or_icmp_code_last;
    tcp_flags_mask = r.tcp_flags_mask;
    tcp_flags_value = r.tcp_flags_value;
  }

-- `parse` stands for the binary API's `ParsePrefix` of a prefix's text, the body of `toBinapiPrefix`.
module _ {P : Type 0} (parse : Prefix → Option P) where
  -- `toBinapiRule`
  unfoldable pub to_binapi_rule : AclRule → Option (BinRule P)
  to_binapi_rule r = elim (parse r.dst) [
    | none ↦ none
    | some dst ↦ elim (parse r.src) [ none ↦ none | some src ↦ some (bin_rule r dst src) ]
  ]

  -- `buildACLRules`; the slice `out` grows at its end.
  build_from : AclFamily → List (BinRule P) → List AclRule → Option (List (BinRule P))
  build_from f out [] = elim (to_binapi_rule (permit_any f)) [
    | none ↦ none
    | some last ↦ some (out ++ last ∷ [])
  ]
  build_from f out (r ∷ rules) = elim (to_binapi_rule r) [
    | none ↦ none
    | some b ↦ build_from f (out ++ b ∷ []) rules
  ]

  unfoldable pub build_acl_rules : AclFamily → List AclRule → Option (List (BinRule P))
  unfolding build_from
  build_acl_rules f rules = build_from f [] rules

-- `aclIndices`: the indices of the two Managed ACLs, when VPP has assigned them.
unfoldable pub acl_index_unset : ℕ
acl_index_unset = 4294967295

unfoldable pub acl_indices : (AclFamily → ℕ) → List ℕ
acl_indices idx =
    (if not (idx acl_ipv4 == acl_index_unset) then idx acl_ipv4 ∷ [] else [])
    ++ (if not (idx acl_ipv6 == acl_index_unset) then idx acl_ipv6 ∷ [] else [])
