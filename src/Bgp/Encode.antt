-- ===== src/Bgp/Encode.antt =====
-- internal/bgp/encode.go: a rule turned into a GoBGP FlowSpec route.
use flowspec_vpp_agent.Prelude.{
  ℕ, ◌+◌, Bool, true, false, not, List, [], ◌∷◌, map, ◌++◌, if◌then◌else◌,
}
use flowspec_vpp_agent.Data.Result.{Result, ok, err, ◌>>=◌}
use flowspec_vpp_agent.Flowspec.{
  Addr, invalid, is4, is6, Prefix, Family, family_ipv4, family_ipv6, NumericOp, BitmaskOp, Match,
  Rule,
}
use flowspec_vpp_agent.Flowspec.Wire.{
  ComponentType, Item, Component, destination_prefix, source_prefix, destination_prefix6,
  source_prefix6, operators, Nlri, ipv4_unicast, ipv6_unicast, Library,
}
use flowspec_vpp_agent.Flowspec.Wire

pub data Error : Type 0 where
  no_components invalid_prefix ipv4_in_ipv6_rule ipv6_in_ipv4_rule : Error

-- A flag of an operator byte
abbrev pub flag : Bool → ℕ → ℕ
flag b weight = if b then weight else 0

-- The operator byte that `appendNumeric` builds: the flags are distinct bits.
unfoldable pub numeric_item : NumericOp → Item
numeric_item o = record {
  op = flag o.and 0x40 + flag o.eq 0x01 + flag o.gt 0x02 + flag o.lt 0x04;
  value = o.value;
}

unfoldable pub bitmask_item : BitmaskOp → Item
bitmask_item o = record {
  op = flag o.and 0x40 + flag o.not 0x02 + flag o.match 0x01;
  value = o.value;
}

-- `Prefix.IsValid`, for a prefix of a valid length
abbrev pub is_valid : Prefix → Bool
is_valid q = valid q.addr
  where
    valid : Addr → Bool
    valid invalid = false
    valid _ = true

module _ (lib : Library) where
  abbrev pub Comps : Type 0
  Comps = List (Component lib.PrefixNlri)

  -- `prefixNLRI`
  unfoldable pub prefix_nlri : Prefix → Bool → Result Error lib.PrefixNlri
  prefix_nlri p v6 =
      if not (is_valid p)
      then err invalid_prefix
      else if v6
      then (if not (is6 p.addr)
          then err ipv4_in_ipv6_rule
          else ok (lib.new_ipv6_prefix p.bits p.addr))
      else if not (is4 p.addr)
      then err ipv6_in_ipv4_rule
      else ok (lib.new_ip_prefix p.bits p.addr)

  -- The last steps of `appendNumeric` and `appendBitmask`
  unfoldable pub append_items : Comps → ComponentType → List Item → Comps
  append_items comps t [] = comps
  append_items comps t (i ∷ is) = comps ++ (operators t (lib.new_items (i ∷ is)) ∷ [])

  -- `appendNumeric`
  unfoldable pub append_numeric : Comps → ComponentType → List NumericOp → Comps
  append_numeric comps t ops = append_items comps t (map numeric_item ops)

  -- `appendBitmask`
  unfoldable pub append_bitmask : Comps → ComponentType → List BitmaskOp → Comps
  append_bitmask comps t ops = append_items comps t (map bitmask_item ops)

  unfoldable pub destination_part : Match → Bool → Result Error Comps
  destination_part m v6 =
      if m.has_dst
      then (do
        p ← prefix_nlri m.dst v6
        ok ((if v6 then destination_prefix6 p m.dst_offset else destination_prefix p) ∷ []))
      else ok []

  unfoldable pub source_part : Match → Bool → Result Error Comps
  source_part m v6 =
      if m.has_src
      then (do
        p ← prefix_nlri m.src v6
        ok ((if v6 then source_prefix6 p m.src_offset else source_prefix p) ∷ []))
      else ok []

  -- The components behind the prefixes
  unfoldable pub append_operators : Comps → Match → Comps
  append_operators comps m =
      let comps = append_numeric comps Wire.type_ip_proto m.proto in
      let comps = append_numeric comps Wire.type_dst_port m.dst_port in
      let comps = append_numeric comps Wire.type_src_port m.src_port in
      let comps = append_numeric comps Wire.type_icmp_type m.icmp_type in
      let comps = append_numeric comps Wire.type_icmp_code m.icmp_code in
      append_bitmask comps Wire.type_tcp_flag m.tcp_flags

  abbrev pub is_v6 : Family → Bool
  is_v6 family_ipv4 = false
  is_v6 family_ipv6 = true

  unfoldable pub to_nlri : Bool → Comps → Result Error (Nlri lib.PrefixNlri)
  to_nlri v6 [] = err no_components
  to_nlri v6 (c ∷ cs) = ok (if v6 then ipv6_unicast (c ∷ cs) else ipv4_unicast (c ∷ cs))

  -- `encodeNLRI`
  unfoldable pub encode_nlri : Rule → Result Error (Nlri lib.PrefixNlri)
  encode_nlri r = do
    let v6 = is_v6 r.family
    dst ← destination_part r.match v6
    src ← source_part r.match v6
    to_nlri v6 (append_operators (dst ++ src) r.match)
