-- ===== src/Packet.antt =====
-- internal/packet/packet.go: a raw packet header decoded into a sample. A read or a slice outside
-- the bytes, which panics in Go, gives the parameters `oob` and `bad`.
pub mod InBounds
pub mod Fields
pub mod Vlan
pub mod RoundTrip
use flowspec_vpp_agent.Prelude.{
  ℕ, zero, suc, ◌+◌, ◌*◌, ◌/◌, ◌%◌, ◌^◌, Bool, ◌||◌, not, Option, none, some, List, [], ◌∷◌, ltb,
  ◌==◌, if◌then◌else◌, length,
}
use flowspec_vpp_agent.Data.Bytes.{at, u16, big_endian, slice_from}
use flowspec_vpp_agent.Flowspec.{Addr, invalid, ip4, ip6, Family, family_ipv4, family_ipv6}
use flowspec_vpp_agent.Detector.Sample.{Sample, IngressName, unnamed}

abbrev pub ether_type_ipv4 : ℕ
ether_type_ipv4 = 0x0800

abbrev pub ether_type_ipv6 : ℕ
ether_type_ipv6 = 0x86dd

abbrev pub ether_type_vlan : ℕ
ether_type_vlan = 0x8100

abbrev pub tcp : ℕ
tcp = 6

abbrev pub udp : ℕ
udp = 17

abbrev pub is_icmp : ℕ → Bool
is_icmp proto = proto == 1 || proto == 58

-- `ClampU16`
unfoldable pub clamp_u16 : ℕ → ℕ
clamp_u16 v = if ltb 0xffff v then 0xffff else v

-- A `Sample` literal of the decoders; the fields that they leave out are zero.
unfoldable pub layer3 : Family → Addr → Addr → ℕ → ℕ → Sample
layer3 family src dst proto packet_len = record {
  seen_at = 0;
  family = family;
  src = src;
  dst = dst;
  proto = proto;
  src_port = 0;
  dst_port = 0;
  packet_len = packet_len;
  tcp_flags = 0;
  icmp_type = 0;
  icmp_code = 0;
  ingress_if = unnamed;
  sample_rate = 0;
}

-- One round of the walk over IPv6 extension headers: the protocol and the bytes to return, or the
-- length of the header to skip.
pub data Walk : Type 0 where
  stop : ℕ → List ℕ → Walk
  jump : ℕ → Walk

-- How the VLAN loop ends: at an EtherType and an offset, on missing bytes, or out of fuel.
pub data Peeled : Type 0 where
  reached : ℕ → ℕ → Peeled
  short : Peeled
  stuck : Peeled

abbrev pub is_options : ℕ → Bool
is_options next = next == 0 || next == 43 || next == 60 || next == 135

module _ (oob : ℕ) where
  -- `fillPorts`
  unfoldable pub fill_ports : Sample → List ℕ → Sample
  fill_ports s payload =
      if s.proto == tcp
      then (if ltb (length payload) 14 then s else record s {
        src_port = u16 oob payload 0;
        dst_port = u16 oob payload 2;
        tcp_flags = at oob payload 13;
      })
      else if s.proto == udp
      then (if ltb (length payload) 4
          then s
          else record s { src_port = u16 oob payload 0; dst_port = u16 oob payload 2 })
      else if is_icmp s.proto
      then (if ltb (length payload) 2
          then s
          else record s { icmp_type = at oob payload 0; icmp_code = at oob payload 1 })
      else s

  -- The `switch` in `skipIPv6ExtHeaders`
  unfoldable pub walk : ℕ → List ℕ → Walk
  walk next rest =
      if is_options next
      then (if ltb (length rest) 2 then stop next [] else jump ((at oob rest 1 + 1) * 8))
      else if next == 44
      then (if ltb (length rest) 8
          then stop next []
          else if not (u16 oob rest 2 / 2 ^ 3 == 0)
          then stop (at oob rest 0) []
          else jump 8)
      else if next == 51
      then (if ltb (length rest) 2 then stop next [] else jump ((at oob rest 1 + 2) * 4))
      else stop next rest

  -- The VLAN loop of `DecodeEthernet`
  unfoldable pub peel : ℕ → List ℕ → ℕ → ℕ → Peeled
  peel zero b typ off = if typ == ether_type_vlan then stuck else reached typ off
  peel (suc fuel) b typ off =
      let rest = peel fuel b (u16 oob b (off + 2)) (off + 4) in
      if typ == ether_type_vlan
      then (if ltb (length b) (off + 4) then short else rest)
      else reached typ off

module _ (oob : ℕ) (bad : List ℕ) where
  -- The end of a round: skip the header unless it is empty or truncated.
  unfoldable pub advance : (ℕ → List ℕ → ℕ × List ℕ) → ℕ → List ℕ → Walk → ℕ × List ℕ
  advance again next rest (stop proto l4) = (proto, l4)
  advance again next rest (jump hdr_len) =
      if hdr_len == 0 || ltb (length rest) hdr_len
      then (next, [])
      else again (at oob rest 0) (slice_from bad rest hdr_len)

  -- `skipIPv6ExtHeaders`, by the rounds that are left
  unfoldable pub skip_ipv6_ext_headers : ℕ → ℕ → List ℕ → ℕ × List ℕ
  skip_ipv6_ext_headers zero next rest = (next, rest)
  skip_ipv6_ext_headers (suc i) next rest =
      advance (skip_ipv6_ext_headers i) next rest (walk oob next rest)

  -- `DecodeIPv4`
  unfoldable pub decode_ipv4 : List ℕ → Option Sample
  decode_ipv4 b =
      if ltb (length b) 20 || not (at oob b 0 / 2 ^ 4 == 4)
      then none
      else let ihl = at oob b 0 % 2 ^ 4 * 4 in
        if ltb ihl 20 || ltb (length b) ihl
        then none
        else let s =
            layer3 family_ipv4 (ip4 (big_endian oob b 12 4)) (ip4 (big_endian oob b 16 4))
              (at oob b 9) (u16 oob b 2) in
          some (if u16 oob b 6 % 2 ^ 13 == 0 then fill_ports oob s (slice_from bad b ihl) else s)

  -- `DecodeIPv6`
  unfoldable pub decode_ipv6 : List ℕ → Option Sample
  decode_ipv6 b =
      if ltb (length b) 40 || not (at oob b 0 / 2 ^ 4 == 6)
      then none
      else let l4 = skip_ipv6_ext_headers 8 (at oob b 6) (slice_from bad b 40) in
        some (
          fill_ports oob
            (layer3 family_ipv6 (ip6 (big_endian oob b 8 16)) (ip6 (big_endian oob b 24 16)) (l4.0)
              (clamp_u16 (u16 oob b 4 + 40)))
            (l4.1))

  -- The `switch` that ends `DecodeEthernet`
  unfoldable pub decode_payload : List ℕ → Peeled → Option Sample
  decode_payload b (reached typ off) =
      if typ == ether_type_ipv4
      then decode_ipv4 (slice_from bad b off)
      else if typ == ether_type_ipv6
      then decode_ipv6 (slice_from bad b off)
      else none
  decode_payload b short = none
  decode_payload b stuck = none

  -- `DecodeEthernet`
  unfoldable pub decode_ethernet : List ℕ → Option Sample
  decode_ethernet b =
      if ltb (length b) 14 then none else decode_payload b (peel oob (length b) b (u16 oob b 12) 14)

  -- `FromEthernet`
  unfoldable pub from_ethernet : List ℕ → ℕ → ℕ → IngressName → Option Sample
  from_ethernet b now sample_rate ingress_if = elim (decode_ethernet b) [
    | none ↦ none
    | some s ↦ some (record s {
      seen_at = now;
      ingress_if = ingress_if;
      sample_rate = if sample_rate == 0 then 1 else sample_rate;
    })
  ]
