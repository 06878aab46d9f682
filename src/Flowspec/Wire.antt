-- ===== src/Flowspec/Wire.antt =====
-- GoBGP's types of a FlowSpec route, as far as the agent reads and builds them, and what it relies on
-- in GoBGP and in `netip.ParsePrefix`.
use Prim.Native.String.{String}
use flowspec_vpp_agent.Prelude.{
  ℕ, ◌+◌, ◌-◌, ◌*◌, ◌%◌, ◌^◌, ◌≤◌, ◌<◌, ◌≡◌, Bool, Option, some, List, [], ◌∷◌,
}
use flowspec_vpp_agent.Flowspec.{Addr, invalid, ip4, ip6, Prefix}

-- `BGPFlowSpecType`
pub data ComponentType : Type 0 where
  type_ip_proto type_dst_port type_src_port type_icmp_type type_icmp_code type_tcp_flag
        type_fragment type_port type_pkt_len type_dscp type_label type_other :
      ComponentType

-- `FlowSpecComponentItem`
pub record Item : Type 0 where
  pub op : ℕ  -- uint8
  pub value : ℕ  -- uint64

-- `FlowSpecComponentInterface`, by the dynamic types that the agent tells apart. `P` is the type of
-- prefix NLRIs.
pub data Component (P : Type 0) : Type 0 where
  destination_prefix source_prefix : P → Component P
  destination_prefix6 source_prefix6 : P → ℕ → Component P
  operators : ComponentType → List Item → Component P
  unrecognised : Component P

-- `AddrPrefixInterface`
pub data Nlri (P : Type 0) : Type 0 where
  ipv4_unicast ipv6_unicast : List (Component P) → Nlri P
  not_flowspec : Nlri P

-- `ExtendedCommunityInterface`, by the dynamic types that the agent tells apart; a rate is kept as
-- whether it is zero and its text `traffic-rate=…`.
pub data Community : Type 0 where
  traffic_rate : Bool → String → Community
  traffic_action traffic_remark redirect other_community : Community

-- `PathAttributeInterface`
pub data Attribute : Type 0 where
  extended_communities : List Community → Attribute
  other_attribute : Attribute

-- No bit is set behind the length, which fits the address.
abbrev pub IsCanonical : Prefix → Type 0
IsCanonical q = canonical q.addr q.bits
  where
    canonical : Addr → ℕ → Type 0
    canonical invalid bits = ⊥
    canonical (ip4 a) bits = (bits ≤ 32) × (a < 2 ^ 32) × (a % 2 ^ (32 - bits) ≡ 0)
    canonical (ip6 a) bits = (bits ≤ 128) × (a < 2 ^ 128) × (a % 2 ^ (128 - bits) ≡ 0)

-- `NewFlowSpecComponentItem` writes the value's length into bits 4 and 5, and
-- `NewFlowSpecComponent` the end of the list into bit 7.
pub record Extends (op op' : ℕ) : Type 0 where
  pub len : ℕ
  pub end : ℕ
  pub len_fits : len < 4
  pub end_fits : end < 2
  pub extended : op' ≡ op + 16 * len + 128 * end

abbrev pub Sealed : List Item → List Item → Type 0
Sealed [] [] = Unit
Sealed (i ∷ is) (j ∷ js) = (j.value ≡ i.value) × Extends i.op j.op × Sealed is js
Sealed _ _ = ⊥

-- GoBGP and `netip`: `new_items` stands for the items of `NewFlowSpecComponent` on items of
-- `NewFlowSpecComponentItem`, `parse_prefix` for `netip.ParsePrefix(p.String())`.
pub record Library : Type 1 where
  pub PrefixNlri : Type 0
  pub new_ip_prefix : ℕ → Addr → PrefixNlri
  pub new_ipv6_prefix : ℕ → Addr → PrefixNlri
  pub parse_prefix : PrefixNlri → Option Prefix
  pub new_items : List Item → List Item
  pub items_sealed : (items : List Item) → Sealed items (new_items items)
  pub parse_ip_prefix :
      (a bits : ℕ)
      → IsCanonical (record { addr = ip4 a; bits = bits })
      → parse_prefix (new_ip_prefix bits (ip4 a)) ≡ some (record { addr = ip4 a; bits = bits })
  pub parse_ipv6_prefix :
      (a bits : ℕ)
      → IsCanonical (record { addr = ip6 a; bits = bits })
      → parse_prefix (new_ipv6_prefix bits (ip6 a)) ≡ some (record { addr = ip6 a; bits = bits })
