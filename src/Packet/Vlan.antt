-- ===== src/Packet/Vlan.antt =====
-- The VLAN loop of internal/packet: its fuel, and what a tag does to a frame.
use flowspec_vpp_agent.Prelude.{
  ℕ, zero, suc, ◌+◌, ◌-◌, ◌*◌, ◌≤◌, ◌<◌, ◌≡◌, ◌≢◌, refl, ◌∙◌, ap, sym, false, List, [], ◌∷◌, ◌++◌,
  ltb, length, length-append, append_assoc, inl, inr, Bool-cases, arith,
}
use flowspec_vpp_agent.Data.Bytes.{
  at, u16, big_endian, slice_from, big_endian-append, slice_from-append,
}
use flowspec_vpp_agent.Packet.{
  Peeled, reached, short, stuck, peel, decode_payload, ether_type_vlan, decode_ethernet,
}

module _ (oob : ℕ) where
  -- Any fuel that covers the bytes behind the offset is enough.
  peel-total :
      (fuel : ℕ) (b : List ℕ) (typ off : ℕ)
      → off ≤ length b
      → length b < off + 4 * fuel
      → peel oob fuel b typ off ≢ stuck
  unfolding peel
  peel-total zero b typ off r h = absurd (omega arith)
  peel-total (suc fuel) b typ off r h =
      ground (arith, peel-total fuel b (u16 oob b (off + 2)) (off + 4))

  -- The VLAN loop of `DecodeEthernet` ends: with as many rounds as the frame has bytes, it reaches an
  -- EtherType that is no VLAN tag or finds the frame too short, for every frame that holds an
  -- Ethernet header.
  pub peel-ne_stuck : (b : List ℕ) → 14 ≤ length b → peel oob (length b) b (u16 oob b 12) 14 ≢ stuck
  peel-ne_stuck b h = peel-total (length b) b (u16 oob b 12) 14 h (omega arith)

  peel-fuel :
      (f g : ℕ) (b : List ℕ) (typ off : ℕ)
      → off ≤ length b
      → length b < off + 4 * f
      → length b < off + 4 * g
      → peel oob f b typ off ≡ peel oob g b typ off
  unfolding peel
  peel-fuel zero g b typ off r h k = absurd (omega arith)
  peel-fuel (suc f) zero b typ off r h k = absurd (omega arith)
  peel-fuel (suc f) (suc g) b typ off r h k =
      ground (arith, peel-fuel f g b (u16 oob b (off + 2)) (off + 4))

  peel-tag :
      (fuel : ℕ) (b : List ℕ) (off : ℕ)
      → off + 4 ≤ length b
      → peel oob (suc fuel) b ether_type_vlan off ≡ peel oob fuel b (u16 oob b (off + 2)) (off + 4)
  unfolding peel
  peel-tag fuel b off r = ground arith

  peel-cut :
      (fuel : ℕ) (b : List ℕ) (off : ℕ)
      → length b < off + 4
      → peel oob (suc fuel) b ether_type_vlan off ≡ short
  unfolding peel
  peel-cut fuel b off r = ground arith

  vlan_type : (c d : ℕ) (rest : List ℕ) → u16 oob (0x81 ∷ 0x00 ∷ c ∷ d ∷ rest) 0 ≡ ether_type_vlan
  unfolding big_endian at
  vlan_type c d rest = refl

  peel-ge :
      (fuel : ℕ) (b : List ℕ) (typ off t f : ℕ) → peel oob fuel b typ off ≡ reached t f → off ≤ f
  unfolding peel
  peel-ge zero b typ off t f h = ground arith
  peel-ge (suc fuel) b typ off t f h =
      ground (arith, peel-ge fuel b (u16 oob b (off + 2)) (off + 4) t f)

shift : Peeled → Peeled
shift (reached typ off) = reached typ (off + 4)
shift short = short
shift stuck = stuck

-- Four bytes put in behind the first twelve.
module _ (oob : ℕ) (macs tag rest : List ℕ) (hm : length macs ≡ 12) (ht : length tag ≡ 4) where
  read_behind :
      (i j n : ℕ)
      → 12 ≤ i
      → j ≡ i + 4
      → big_endian oob ((macs ++ tag) ++ rest) j n ≡ big_endian oob (macs ++ rest) i n
  read_behind i j n r h =
      big_endian-append oob (macs ++ tag) rest j (i - 12) n (omega (arith, length-append macs tag))
      ∙ sym (big_endian-append oob macs rest i (i - 12) n (omega arith))

  peel-shift :
      (fuel typ off off' : ℕ)
      → 12 ≤ off
      → off' ≡ off + 4
      → peel oob fuel ((macs ++ tag) ++ rest) typ off'
        ≡ shift (peel oob fuel (macs ++ rest) typ off)
  unfolding peel shift
  peel-shift zero typ off off' r h = ground arith
  peel-shift (suc fuel) typ off off' r h = ground (
    arith,
    length-append (macs ++ tag) rest,
    length-append macs tag,
    length-append macs rest,
    read_behind (off + 2) (off' + 2) 2,
    peel-shift fuel (u16 oob (macs ++ rest) (off + 2)) (off + 4) (off' + 4),
  )

module _ (oob : ℕ) (bad macs tag rest : List ℕ) (hm : length macs ≡ 12) (ht : length tag ≡ 4) where
  payload-shift :
      (p : Peeled)
      → ((typ off : ℕ) → p ≡ reached typ off → 12 ≤ off)
      → decode_payload oob bad ((macs ++ tag) ++ rest) (shift p)
        ≡ decode_payload oob bad (macs ++ rest) p
  unfolding decode_payload shift
  payload-shift (reached typ off) h =
      let e : slice_from bad ((macs ++ tag) ++ rest) (off + 4) ≡ slice_from bad (macs ++ rest) off =
        slice_from-append bad (macs ++ tag) rest (off + 4) (off - 12)
          (let r = h typ off refl in omega (arith, length-append macs tag))
        ∙ sym (
            slice_from-append bad macs rest off (off - 12)
              (let r = h typ off refl in omega arith)) in
      rw e refl
  payload-shift short h = refl
  payload-shift stuck h = refl

  module _ (vlan : u16 oob ((macs ++ tag) ++ rest) 12 ≡ ether_type_vlan) where
    tag_peeled :
        14 ≤ length (macs ++ rest)
        → peel oob
            (length ((macs ++ tag) ++ rest))
            ((macs ++ tag) ++ rest)
            (u16 oob ((macs ++ tag) ++ rest) 12)
            14
          ≡ shift (peel oob (length (macs ++ rest)) (macs ++ rest) (u16 oob (macs ++ rest) 12) 14)
    tag_peeled r =
        let u : length ((macs ++ tag) ++ rest) ≡ suc (length (macs ++ rest) + 3) = omega (
          arith,
          length-append (macs ++ tag) rest,
          length-append macs tag,
          length-append macs rest,
        ) in
        let t = length (macs ++ rest) + 3 in
        rw vlan (
          rw u (
            peel-tag oob t ((macs ++ tag) ++ rest) 14 (omega (arith, u))
            ∙ rw (read_behind oob macs tag rest hm ht 12 16 2 (omega arith) (omega arith)) (
                peel-shift oob macs tag rest hm ht t (u16 oob (macs ++ rest) 12) 14 18 (omega arith)
                  (omega arith)
                ∙ ap shift (
                    peel-fuel oob t (length (macs ++ rest)) (macs ++ rest)
                      (u16 oob (macs ++ rest) 12) 14 r (omega arith) (omega arith)))))

    tag_cut_off :
        length (macs ++ rest) < 14
        → peel oob
            (length ((macs ++ tag) ++ rest))
            ((macs ++ tag) ++ rest)
            (u16 oob ((macs ++ tag) ++ rest) 12)
            14
          ≡ short
    tag_cut_off r =
        let u : length ((macs ++ tag) ++ rest) ≡ suc (length (macs ++ rest) + 3) = omega (
          arith,
          length-append (macs ++ tag) rest,
          length-append macs tag,
          length-append macs rest,
        ) in
        rw vlan (rw u (peel-cut oob _ ((macs ++ tag) ++ rest) 14 (omega (arith, u))))

    decode-tagged :
        decode_ethernet oob bad ((macs ++ tag) ++ rest) ≡ decode_ethernet oob bad (macs ++ rest)
    unfolding decode_ethernet decode_payload
    decode-tagged =
        let u : length ((macs ++ tag) ++ rest) ≡ length (macs ++ rest) + 4 = omega (
          arith,
          length-append (macs ++ tag) rest,
          length-append macs tag,
          length-append macs rest,
        ) in
        let v = length-append macs rest in
        let long : ltb (length ((macs ++ tag) ++ rest)) 14 ≡ false = ground (arith, u, v) in
        rw long (elim (Bool-cases (ltb (length (macs ++ rest)) 14)) [
          | inl e ↦ rw (e, tag_cut_off (ground arith), decode_payload) refl
          | inr e ↦
              rw (e, tag_peeled (ground arith))
                (payload-shift
                  (peel oob (length (macs ++ rest)) (macs ++ rest) (u16 oob (macs ++ rest) 12) 14)
                  (λ typ off q. omega (
                    arith,
                    peel-ge oob (length (macs ++ rest)) (macs ++ rest) (u16 oob (macs ++ rest) 12)
                        14 typ off q,
                  )))
        ])

-- A VLAN tag between the addresses and the EtherType does not change what a frame decodes to,
-- whatever the tag's control information and the rest of the frame are, a truncated rest included.
pub decode_ethernet-tagged :
    (oob : ℕ) (bad macs rest : List ℕ) (c d : ℕ)
    → length macs ≡ 12
    → decode_ethernet oob bad ((macs ++ 0x81 ∷ 0x00 ∷ c ∷ d ∷ []) ++ rest)
      ≡ decode_ethernet oob bad (macs ++ rest)
decode_ethernet-tagged oob bad macs rest c d h =
    let tag : List ℕ = 0x81 ∷ 0x00 ∷ c ∷ d ∷ [] in
    decode-tagged oob bad macs tag rest h (omega arith) (
      ap (λ b. u16 oob b 12) (append_assoc macs tag rest)
      ∙ (big_endian-append oob macs (tag ++ rest) 12 0 2 (omega arith) ∙ vlan_type oob c d rest))
