-- ===== src/Packet/RoundTrip.antt =====
-- An IPv4 header written out after RFC 791, and internal/packet's decoder on it.
use flowspec_vpp_agent.Prelude.{
  ℕ, ◌+◌, ◌*◌, ◌/◌, ◌%◌, ◌^◌, ◌≤◌, ◌<◌, ◌≡◌, refl, ◌∙◌, ap, false, ◌||◌, not, some, List, [], ◌∷◌,
  ◌++◌, ltb, ◌==◌, if◌then◌else◌, length, length-append, inl, inr, Bool-cases, arith,
}
use flowspec_vpp_agent.Data.Bytes.{at, u16, big_endian, slice_from, drop, slice_from-append}
use flowspec_vpp_agent.Flowspec.{ip4, family_ipv4}
use flowspec_vpp_agent.Detector.Sample.{Sample}
use flowspec_vpp_agent.Packet.{udp, fill_ports, layer3, decode_ipv4}

-- The header fields, with the options in four-byte words.
pub record Header : Type 0 where
  pub words : ℕ
  pub service : ℕ
  pub total_len : ℕ
  pub identification : ℕ
  pub flags : ℕ
  pub fragment_offset : ℕ
  pub ttl : ℕ
  pub proto : ℕ
  pub checksum : ℕ
  pub src : ℕ
  pub dst : ℕ

pub record HeaderFits (h : Header) : Type 0 where
  pub words_fits : h.words ≤ 10
  pub total_len_fits : h.total_len < 2 ^ 16
  pub flags_fits : h.flags < 8
  pub fragment_offset_fits : h.fragment_offset < 2 ^ 13
  pub src_fits : h.src < 2 ^ 32
  pub dst_fits : h.dst < 2 ^ 32

abbrev high : ℕ → ℕ
high v = v / 256

abbrev low : ℕ → ℕ
low v = v % 256

-- Four bytes of an address, and what follows.
abbrev quad : ℕ → List ℕ → List ℕ
quad a rest = (a / 2 ^ 24) ∷ (a / 2 ^ 16 % 256) ∷ (a / 256 % 256) ∷ (a % 256) ∷ rest

abbrev fragment_word : Header → ℕ
fragment_word h = h.flags * 2 ^ 13 + h.fragment_offset

unfoldable pub header_bytes : Header → List ℕ
header_bytes h =
    (64 + (5 + h.words))
    ∷ h.service
    ∷ high h.total_len
    ∷ low h.total_len
    ∷ high h.identification
    ∷ low h.identification
    ∷ high (fragment_word h)
    ∷ low (fragment_word h)
    ∷ h.ttl
    ∷ h.proto
    ∷ high h.checksum
    ∷ low h.checksum
    ∷ quad h.src (quad h.dst [])

pub datagram : Header → List ℕ → List ℕ → List ℕ
datagram h options l4 = header_bytes h ++ (options ++ l4)

pub port_bytes : ℕ → ℕ → List ℕ → List ℕ
port_bytes src dst rest = high src ∷ low src ∷ high dst ∷ low dst ∷ rest

quad_lem :
    (a : ℕ)
    → (((0 + a / 2 ^ 24) * 256 + a / 2 ^ 16 % 256) * 256 + a / 256 % 256) * 256 + a % 256 ≡ a
quad_lem a = omega arith

module _ (oob : ℕ) (bad : List ℕ) where
  slice_from_zero : (l : List ℕ) → slice_from bad l 0 ≡ l
  unfolding slice_from drop
  slice_from_zero l = ground arith

  udp_ports :
      (s : Sample) (src dst : ℕ) (rest : List ℕ)
      → s.proto ≡ udp
      → fill_ports oob s (port_bytes src dst rest) ≡ record s { src_port = src; dst_port = dst }
  unfolding fill_ports port_bytes big_endian at
  udp_ports s src dst rest h = ground arith

  module _ (h : Header) (options l4 : List ℕ) (fits : HeaderFits h)
      (hw : length options ≡ 4 * h.words) where
    abbrev sample : Sample
    sample = layer3 family_ipv4 (ip4 h.src) (ip4 h.dst) h.proto h.total_len

    behind_header : slice_from bad (datagram h options l4) ((5 + h.words) * 4) ≡ l4
    unfolding datagram header_bytes
    behind_header =
        slice_from-append bad (header_bytes h) (options ++ l4) ((5 + h.words) * 4) (4 * h.words)
          (omega arith)
        ∙ slice_from-append bad options l4 (4 * h.words) 0 (omega (arith, hw))
        ∙ slice_from_zero l4

    datagram-length : 20 + 4 * h.words ≤ length (datagram h options l4)
    unfolding datagram header_bytes
    datagram-length = omega (arith, length-append options l4)

    version_lem : at oob (datagram h options l4) 0 ≡ 69 + h.words
    unfolding datagram header_bytes at
    version_lem = omega arith

    total_len_lem : u16 oob (datagram h options l4) 2 ≡ h.total_len
    unfolding datagram header_bytes big_endian at
    total_len_lem = omega arith

    fragment_lem : u16 oob (datagram h options l4) 6 ≡ fragment_word h
    unfolding datagram header_bytes big_endian at
    fragment_lem = omega arith

    proto_lem : at oob (datagram h options l4) 9 ≡ h.proto
    unfolding datagram header_bytes at
    proto_lem = refl

    src_lem : big_endian oob (datagram h options l4) 12 4 ≡ h.src
    unfolding datagram header_bytes big_endian at
    src_lem = quad_lem h.src

    dst_lem : big_endian oob (datagram h options l4) 16 4 ≡ h.dst
    unfolding datagram header_bytes big_endian at
    dst_lem = quad_lem h.dst

    decode-datagram :
        decode_ipv4 oob bad (datagram h options l4)
        ≡ some (if h.fragment_offset == 0 then fill_ports oob sample l4 else sample)
    unfolding decode_ipv4
    decode-datagram =
        let b = datagram h options l4 in
        let accepted : (ltb (length b) 20 || not ((69 + h.words) / 2 ^ 4 == 4)) ≡ false =
          ground (arith, datagram-length) in
        let ihl : (69 + h.words) % 2 ^ 4 * 4 ≡ (5 + h.words) * 4 = omega arith in
        let whole : (ltb ((5 + h.words) * 4) 20 || ltb (length b) ((5 + h.words) * 4)) ≡ false =
          ground (arith, datagram-length) in
        let offset : (fragment_word h) % 2 ^ 13 ≡ h.fragment_offset = omega arith in
        rw (version_lem, total_len_lem, fragment_lem, proto_lem, src_lem, dst_lem)
          (rw accepted (rw ihl (rw (whole, behind_header, offset) refl)))

    -- A UDP datagram written out after RFC 791, with options of any length, decodes to a sample of the
    -- addresses, the total length and the protocol that were written. The ports are those written if
    -- the datagram is the first fragment, and zero in a later one, where the bytes are payload.
    pub decode-datagram-udp :
        (src_port dst_port : ℕ) (payload : List ℕ)
        → h.proto ≡ udp
        → l4 ≡ port_bytes src_port dst_port payload
        → decode_ipv4 oob bad (datagram h options l4)
          ≡ some (record (layer3 family_ipv4 (ip4 h.src) (ip4 h.dst) udp h.total_len) {
            src_port = if h.fragment_offset == 0 then src_port else 0;
            dst_port = if h.fragment_offset == 0 then dst_port else 0;
          })
    unfolding layer3
    decode-datagram-udp src_port dst_port payload p e =
        decode-datagram
        ∙ ap some (elim (Bool-cases (h.fragment_offset == 0)) [
          | inl t ↦ rw (t, e) (udp_ports sample src_port dst_port payload p ∙ rw p refl)
          | inr t ↦ rw (t, p) refl
        ])
