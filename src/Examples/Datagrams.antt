-- ===== src/Examples/Datagrams.antt =====
-- Packets and datagrams on concrete bytes, and the theorems on the collectors applied to them.
use flowspec_vpp_agent.Prelude.{ℕ, ◌≡◌, ◌≢◌, refl, List, [], ◌∷◌, ◌++◌, length, some, arith}
use flowspec_vpp_agent.Data.Bytes.{at, big_endian, slice_from, drop, u16}
use flowspec_vpp_agent.Flowspec.{ip4, family_ipv4}
use flowspec_vpp_agent.Detector.Sample.{Sample, unnamed}
use flowspec_vpp_agent.Packet.{
  decode_ethernet, decode_ipv4, decode_payload, peel, stuck, fill_ports, layer3,
}
use flowspec_vpp_agent.Packet.Vlan.{peel-ne_stuck, decode_ethernet-tagged}

abbrev macs : List ℕ
macs = 1 ∷ 2 ∷ 3 ∷ 4 ∷ 5 ∷ 6 ∷ 7 ∷ 8 ∷ 9 ∷ 10 ∷ 11 ∷ 12 ∷ []

-- A UDP datagram from 192.0.2.1 port 53 to 198.51.100.2 port 4660, behind its EtherType.
abbrev typed_packet : List ℕ
typed_packet =
    0x08 ∷ 0x00 ∷ 0x45 ∷ 0 ∷ 0 ∷ 28 ∷ 0 ∷ 0 ∷ 0 ∷ 0 ∷ 64 ∷ 17 ∷ 0 ∷ 0 ∷ 192 ∷ 0 ∷ 2 ∷ 1 ∷ 198 ∷ 51
    ∷ 100 ∷ 2 ∷ 0 ∷ 53 ∷ 18 ∷ 52 ∷ 0 ∷ 8 ∷ 0 ∷ 0 ∷ []

abbrev pub udp_frame : List ℕ
udp_frame = macs ++ typed_packet

abbrev pub udp_sample : Sample
udp_sample = record {
  seen_at = 0;
  family = family_ipv4;
  src = ip4 3221225985;
  dst = ip4 3325256706;
  proto = 17;
  src_port = 53;
  dst_port = 4660;
  packet_len = 28;
  tcp_flags = 0;
  icmp_type = 0;
  icmp_code = 0;
  ingress_if = unnamed;
  sample_rate = 0;
}

udp_frame_decoded : decode_ethernet 0 [] udp_frame ≡ some udp_sample
unfolding decode_ethernet decode_payload decode_ipv4 peel fill_ports layer3 big_endian at slice_from
    drop
udp_frame_decoded = refl

peel-ne_stuck_example : peel 0 (length udp_frame) udp_frame (u16 0 udp_frame 12) 14 ≢ stuck
peel-ne_stuck_example = peel-ne_stuck 0 udp_frame (omega arith)

decode_ethernet-tagged_example :
    decode_ethernet 0 [] ((macs ++ 0x81 ∷ 0x00 ∷ 0 ∷ 5 ∷ []) ++ typed_packet)
    ≡ decode_ethernet 0 [] (macs ++ typed_packet)
decode_ethernet-tagged_example = decode_ethernet-tagged 0 [] macs typed_packet 0 5 refl
