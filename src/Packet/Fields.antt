-- ===== src/Packet/Fields.antt =====
-- The fields of a sample that internal/packet decodes fit their Go types and the packet's family.
use flowspec_vpp_agent.Prelude.{
  ℕ, zero, suc, ◌+◌, ◌*◌, ◌/◌, ◌%◌, ◌^◌, ◌≤◌, ◌<◌, ◌≡◌, refl, ◌||◌, not, some, List, ltb, ◌==◌,
  if◌then◌else◌, length, inl, inr, Bool-cases, some_eq, subst, arith,
}
use flowspec_vpp_agent.Data.Bytes.{
  Bytes, at, u16, big_endian, slice_from, at-Bytes, big_endian-Bytes, slice_from-Bytes,
  slice_from-length,
}
use flowspec_vpp_agent.Flowspec.{Addr, ip4, ip6, Family, family_ipv4, family_ipv6}
use flowspec_vpp_agent.Detector.Sample.{Sample}
use flowspec_vpp_agent.Packet.{
  Walk, stop, jump, Peeled, reached, short, stuck, fill_ports, walk, peel, advance, layer3,
  clamp_u16, skip_ipv6_ext_headers, decode_ipv4, decode_ipv6, decode_payload, decode_ethernet,
}
use flowspec_vpp_agent.Packet.InBounds.{peel-bounds}

-- An address of the family, in its range.
abbrev pub AddrFits : Family → Addr → Type 0
AddrFits family_ipv4 (ip4 a) = a < 2 ^ 32
AddrFits family_ipv6 (ip6 a) = a < 2 ^ 128
AddrFits _ _ = ⊥

pub record Fits (s : Sample) : Type 0 where
  pub src_fits : AddrFits s.family s.src
  pub dst_fits : AddrFits s.family s.dst
  pub proto_fits : s.proto < 256
  pub src_port_fits : s.src_port < 2 ^ 16
  pub dst_port_fits : s.dst_port < 2 ^ 16
  pub packet_len_fits : s.packet_len < 2 ^ 16
  pub tcp_flags_fits : s.tcp_flags < 256
  pub icmp_type_fits : s.icmp_type < 256
  pub icmp_code_fits : s.icmp_code < 256

module _ (oob : ℕ) where
  fill_ports-Fits : (s : Sample) (p : List ℕ) → Fits s → Bytes p → Fits (fill_ports oob s p)
  unfolding fill_ports
  fill_ports-Fits s p f h = ground (
    arith,
    big_endian-Bytes oob p 0 2 h,
    big_endian-Bytes oob p 2 2 h,
    at-Bytes oob p 13 h,
    at-Bytes oob p 0 h,
    at-Bytes oob p 1 h,
  )

  -- What a round hands on when it stops.
  abbrev WalkFits : Walk → Type 0
  WalkFits (stop proto l4) = (proto < 256) × Bytes l4
  WalkFits (jump n) = Unit

  walk-WalkFits :
      (next : ℕ) (rest : List ℕ) → next < 256 → Bytes rest → WalkFits (walk oob next rest)
  unfolding walk
  walk-WalkFits next rest r h = ground (arith, at-Bytes oob rest 0 h)

pub clamp_u16-lt : (v : ℕ) → clamp_u16 v < 2 ^ 16
unfolding clamp_u16
clamp_u16-lt v = ground arith

layer3-Fits :
    (f : Family) (src dst : Addr) (proto len : ℕ)
    → AddrFits f src
    → AddrFits f dst
    → proto < 256
    → len < 2 ^ 16
    → Fits (layer3 f src dst proto len)
unfolding layer3
layer3-Fits f src dst proto len hs hd hp hl = record {
  src_fits = hs;
  dst_fits = hd;
  proto_fits = hp;
  src_port_fits = omega arith;
  dst_port_fits = omega arith;
  packet_len_fits = hl;
  tcp_flags_fits = omega arith;
  icmp_type_fits = omega arith;
  icmp_code_fits = omega arith;
}

abbrev BothFit : ℕ × List ℕ → Type 0
BothFit r = (r.0 < 256) × Bytes r.1

module _ (oob : ℕ) where
  abbrev layer3_of : List ℕ → Sample
  layer3_of b =
      layer3 family_ipv4 (ip4 (big_endian oob b 12 4)) (ip4 (big_endian oob b 16 4)) (at oob b 9)
        (u16 oob b 2)

module _ (oob : ℕ) (bad : List ℕ) where
  advance-BothFit :
      (again : ℕ → List ℕ → ℕ × List ℕ) (next : ℕ) (rest : List ℕ) (w : Walk)
      → next < 256
      → Bytes rest
      → WalkFits oob w
      → ((p : ℕ) (l : List ℕ) → p < 256 → Bytes l → BothFit (again p l))
      → BothFit (advance oob bad again next rest w)
  unfolding advance
  advance-BothFit again next rest (stop proto l4) r h w ih = w
  advance-BothFit again next rest (jump n) r h w ih =
      elim (Bool-cases (n == 0 || ltb (length rest) n)) [
        | inl e ↦ rw e (r, tt)
        | inr e ↦ rw e (
            ih (at oob rest 0) (slice_from bad rest n) (at-Bytes oob rest 0 h (ground arith))
              (slice_from-Bytes bad rest n h (ground arith)))
      ]

  skip-BothFit :
      (i next : ℕ) (rest : List ℕ)
      → next < 256
      → Bytes rest
      → BothFit (skip_ipv6_ext_headers oob bad i next rest)
  unfolding skip_ipv6_ext_headers
  skip-BothFit zero next rest r h = (r, h)
  skip-BothFit (suc i) next rest r h =
      advance-BothFit (skip_ipv6_ext_headers oob bad i) next rest (walk oob next rest) r h
        (walk-WalkFits oob next rest r h) (λ p l. skip-BothFit i p l)

  decode_ipv4_accepted :
      (b : List ℕ) (s : Sample)
      → Bytes b
      → 20 ≤ length b
      → at oob b 0 % 2 ^ 4 * 4 ≤ length b
      → some (
          if u16 oob b 6 % 2 ^ 13 == 0
          then fill_ports oob (layer3_of oob b) (slice_from bad b (at oob b 0 % 2 ^ 4 * 4))
          else layer3_of oob b)
        ≡ some s
      → Fits s
  decode_ipv4_accepted b s h r q e =
      let fits : Fits (layer3_of oob b) =
        layer3-Fits family_ipv4 (ip4 (big_endian oob b 12 4)) (ip4 (big_endian oob b 16 4))
          (at oob b 9) (u16 oob b 2) (big_endian-Bytes oob b 12 4 h (omega arith))
          (big_endian-Bytes oob b 16 4 h (omega arith)) (at-Bytes oob b 9 h (omega arith))
          (big_endian-Bytes oob b 2 2 h (omega arith)) in
      let filled =
        fill_ports-Fits oob (layer3_of oob b) (slice_from bad b (at oob b 0 % 2 ^ 4 * 4)) fits
          (slice_from-Bytes bad b (at oob b 0 % 2 ^ 4 * 4) h q) in
      subst Fits (some_eq e)
        (elim (Bool-cases (u16 oob b 6 % 2 ^ 13 == 0)) [ inl t ↦ rw t filled | inr t ↦ rw t fits ])

  pub decode_ipv4-Fits :
      (b : List ℕ) (s : Sample) → Bytes b → decode_ipv4 oob bad b ≡ some s → Fits s
  unfolding decode_ipv4
  decode_ipv4-Fits b s h e =
      elim (Bool-cases (ltb (length b) 20 || not (at oob b 0 / 2 ^ 4 == 4))) [
        | inl t ↦ ground arith
        | inr t ↦
            elim (Bool-cases
              (ltb (at oob b 0 % 2 ^ 4 * 4) 20 || ltb (length b) (at oob b 0 % 2 ^ 4 * 4))) [
                | inl u ↦ ground arith
                | inr u ↦ decode_ipv4_accepted b s h (ground arith) (ground arith) (ground arith)
              ]
      ]

  pub decode_ipv6-Fits :
      (b : List ℕ) (s : Sample) → Bytes b → decode_ipv6 oob bad b ≡ some s → Fits s
  unfolding decode_ipv6
  decode_ipv6-Fits b s h e =
      elim (Bool-cases (ltb (length b) 40 || not (at oob b 0 / 2 ^ 4 == 6))) [
        | inl t ↦ ground arith
        | inr t ↦
            let l4 = skip_ipv6_ext_headers oob bad 8 (at oob b 6) (slice_from bad b 40) in
            let both : BothFit l4 =
              skip-BothFit 8 (at oob b 6) (slice_from bad b 40) (at-Bytes oob b 6 h (ground arith))
                (slice_from-Bytes bad b 40 h (ground arith)) in
            let s' =
              layer3 family_ipv6 (ip6 (big_endian oob b 8 16)) (ip6 (big_endian oob b 24 16)) (l4.0)
                (clamp_u16 (u16 oob b 4 + 40)) in
            let fits : Fits s' =
              layer3-Fits family_ipv6 (ip6 (big_endian oob b 8 16)) (ip6 (big_endian oob b 24 16))
                (l4.0) (clamp_u16 (u16 oob b 4 + 40)) (big_endian-Bytes oob b 8 16 h (ground arith))
                (big_endian-Bytes oob b 24 16 h (ground arith)) both.0
                (clamp_u16-lt (u16 oob b 4 + 40)) in
            subst Fits (ground arith) (fill_ports-Fits oob s' (l4.1) fits both.1)
      ]

  decode_payload-Fits :
      (b : List ℕ) (p : Peeled) (s : Sample)
      → Bytes b
      → ((typ off : ℕ) → p ≡ reached typ off → off ≤ length b)
      → decode_payload oob bad b p ≡ some s
      → Fits s
  unfolding decode_payload
  decode_payload-Fits b (reached typ off) s h r e =
      let h' = slice_from-Bytes bad b off h (r typ off refl) in
      ground (
        arith,
        decode_ipv4-Fits (slice_from bad b off) s h',
        decode_ipv6-Fits (slice_from bad b off) s h',
      )
  decode_payload-Fits b short s h r e = cc
  decode_payload-Fits b stuck s h r e = cc

  pub decode_ethernet-Fits :
      (b : List ℕ) (s : Sample) → Bytes b → decode_ethernet oob bad b ≡ some s → Fits s
  unfolding decode_ethernet
  decode_ethernet-Fits b s h e = elim (Bool-cases (ltb (length b) 14)) [
    | inl t ↦ ground arith
    | inr t ↦
        decode_payload-Fits b (peel oob (length b) b (u16 oob b 12) 14) s h
          (λ typ off q. peel-bounds oob (length b) b (u16 oob b 12) 14 typ off (ground arith) q)
          (ground arith)
  ]

  -- An IP header has 20 bytes at least.
  pub decode_ipv4-length :
      (b : List ℕ) (s : Sample) → decode_ipv4 oob bad b ≡ some s → 20 ≤ length b
  unfolding decode_ipv4
  decode_ipv4-length b s e = ground arith

  pub decode_ipv6-length :
      (b : List ℕ) (s : Sample) → decode_ipv6 oob bad b ≡ some s → 20 ≤ length b
  unfolding decode_ipv6
  decode_ipv6-length b s e = ground arith

  pub decode_payload-length :
      (b : List ℕ) (p : Peeled) (s : Sample)
      → ((typ off : ℕ) → p ≡ reached typ off → off ≤ length b)
      → decode_payload oob bad b p ≡ some s
      → 20 ≤ length b
  unfolding decode_payload
  decode_payload-length b (reached typ off) s r e = ground (
    arith,
    decode_ipv4-length (slice_from bad b off) s,
    decode_ipv6-length (slice_from bad b off) s,
    slice_from-length bad b off (r typ off refl),
  )
  decode_payload-length b short s r e = cc
  decode_payload-length b stuck s r e = cc

  pub decode_ethernet-length :
      (b : List ℕ) (s : Sample) → decode_ethernet oob bad b ≡ some s → 20 ≤ length b
  unfolding decode_ethernet
  decode_ethernet-length b s e = elim (Bool-cases (ltb (length b) 14)) [
    | inl t ↦ ground arith
    | inr t ↦
        decode_payload-length b (peel oob (length b) b (u16 oob b 12) 14) s
          (λ typ off q. peel-bounds oob (length b) b (u16 oob b 12) 14 typ off (ground arith) q)
          (ground arith)
  ]
