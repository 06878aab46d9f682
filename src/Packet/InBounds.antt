-- ===== src/Packet/InBounds.antt =====
-- The decoders of internal/packet never read or slice outside the bytes they are given.
use flowspec_vpp_agent.Prelude.{
  ℕ, zero, suc, ◌+◌, ◌*◌, ◌%◌, ◌≤◌, ◌≡◌, refl, List, ltb, length, inl, inr, Bool-cases, arith,
}
use flowspec_vpp_agent.Data.Bytes.{
  at, u16, big_endian, slice_from, at-oob, big_endian-oob, slice_from-bad,
}
use flowspec_vpp_agent.Flowspec.{family_ipv4, ip4}
use flowspec_vpp_agent.Detector.Sample.{Sample}
use flowspec_vpp_agent.Packet.{
  Walk, stop, jump, Peeled, reached, short, stuck, fill_ports, walk, peel, advance, layer3,
  skip_ipv6_ext_headers, decode_ipv4, decode_ipv6, decode_payload, decode_ethernet,
}

module _ (o o' : ℕ) where
  fill_ports-oob : (s : Sample) (p : List ℕ) → fill_ports o s p ≡ fill_ports o' s p
  unfolding fill_ports
  fill_ports-oob s p = ground (
    arith,
    big_endian-oob o o' p 0 2,
    big_endian-oob o o' p 2 2,
    at-oob o o' p 13,
    at-oob o o' p 0,
    at-oob o o' p 1,
  )

  walk-oob : (next : ℕ) (rest : List ℕ) → walk o next rest ≡ walk o' next rest
  unfolding walk
  walk-oob next rest =
      ground (arith, big_endian-oob o o' rest 2 2, at-oob o o' rest 0, at-oob o o' rest 1)

  peel-oob : (fuel : ℕ) (b : List ℕ) (typ off : ℕ) → peel o fuel b typ off ≡ peel o' fuel b typ off
  unfolding peel
  peel-oob zero b typ off = refl
  peel-oob (suc fuel) b typ off =
      ground
        (arith, big_endian-oob o o' b (off + 2) 2, peel-oob fuel b (u16 o b (off + 2)) (off + 4))

module _ (o o' : ℕ) (bad bad' : List ℕ) where
  advance-oob :
      (f g : ℕ → List ℕ → ℕ × List ℕ) (next : ℕ) (rest : List ℕ) (w : Walk)
      → ((p : ℕ) (l : List ℕ) → f p l ≡ g p l)
      → advance o bad f next rest w ≡ advance o' bad' g next rest w
  unfolding advance
  advance-oob f g next rest (stop proto l4) h = refl
  advance-oob f g next rest (jump n) h = ground (
    arith,
    slice_from-bad bad bad' rest n,
    at-oob o o' rest 0,
    h (at o rest 0) (slice_from bad rest n),
  )

  skip-oob :
      (i next : ℕ) (rest : List ℕ)
      → skip_ipv6_ext_headers o bad i next rest ≡ skip_ipv6_ext_headers o' bad' i next rest
  unfolding skip_ipv6_ext_headers
  skip-oob zero next rest = refl
  skip-oob (suc i) next rest =
      rw (walk-oob o o' next rest) (advance-oob _ _ next rest _ (λ p l. skip-oob i p l))

  pub decode_ipv4-oob : (b : List ℕ) → decode_ipv4 o bad b ≡ decode_ipv4 o' bad' b
  unfolding decode_ipv4
  decode_ipv4-oob b = ground (
    arith,
    at-oob o o' b 0,
    at-oob o o' b 9,
    big_endian-oob o o' b 2 2,
    big_endian-oob o o' b 6 2,
    big_endian-oob o o' b 12 4,
    big_endian-oob o o' b 16 4,
    slice_from-bad bad bad' b (at o b 0 % 16 * 4),
    fill_ports-oob o o'
        (layer3 family_ipv4 (ip4 (big_endian o b 12 4)) (ip4 (big_endian o b 16 4)) (at o b 9)
          (big_endian o b 2 2))
        (slice_from bad b (at o b 0 % 16 * 4)),
  )

  pub decode_ipv6-oob : (b : List ℕ) → decode_ipv6 o bad b ≡ decode_ipv6 o' bad' b
  unfolding decode_ipv6
  decode_ipv6-oob b = elim (Bool-cases (ltb (length b) 40)) [
    | inl e ↦ rw e refl
    | inr e ↦ rw e (
        rw (at-oob o o' b 0 (ground arith), at-oob o o' b 6 (ground arith))
          (rw
            (
              slice_from-bad bad bad' b 40 (ground arith),
              big_endian-oob o o' b 8 16 (ground arith),
              big_endian-oob o o' b 24 16 (ground arith),
              big_endian-oob o o' b 4 2 (ground arith),
              skip-oob 8 (at o' b 6) (slice_from bad' b 40),
              fill_ports-oob o o',
            )
            refl))
  ]

  decode_payload-oob :
      (b : List ℕ) (p : Peeled)
      → ((typ off : ℕ) → p ≡ reached typ off → off ≤ length b)
      → decode_payload o bad b p ≡ decode_payload o' bad' b p
  unfolding decode_payload
  decode_payload-oob b (reached typ off) h =
      rw
        (
          slice_from-bad bad bad' b off (h typ off refl),
          decode_ipv4-oob (slice_from bad' b off),
          decode_ipv6-oob (slice_from bad' b off),
        )
        refl
  decode_payload-oob b short h = refl
  decode_payload-oob b stuck h = refl

-- The loop stops at an offset inside the frame.
pub peel-bounds :
    (oob fuel : ℕ) (b : List ℕ) (typ off t f : ℕ)
    → off ≤ length b
    → peel oob fuel b typ off ≡ reached t f
    → f ≤ length b
unfolding peel
peel-bounds oob zero b typ off t f r h = ground arith
peel-bounds oob (suc fuel) b typ off t f r h =
    ground (arith, peel-bounds oob fuel b (u16 oob b (off + 2)) (off + 4) t f)

pub decode_ethernet-in_bounds :
    (o o' : ℕ) (bad bad' : List ℕ) (b : List ℕ)
    → decode_ethernet o bad b ≡ decode_ethernet o' bad' b
unfolding decode_ethernet
decode_ethernet-in_bounds o o' bad bad' b = elim (Bool-cases (ltb (length b) 14)) [
  | inl e ↦ rw e refl
  | inr e ↦ rw e (
      rw (big_endian-oob o o' b 12 2 (ground arith), peel-oob o o' (length b) b (u16 o' b 12) 14)
        (decode_payload-oob o o' bad bad' b _
          (λ typ off h. peel-bounds o' (length b) b (u16 o' b 12) 14 typ off (ground arith) h)))
]
