-- ===== src/Sflow/Format.antt =====
-- An sFlow v5 datagram of flow samples as its specification has it, written out as bytes, and the
-- samples that it stands for.
use mathlib.Core.Option
use flowspec_vpp_agent.Prelude.{
  ℕ, zero, suc, ◌+◌, ◌*◌, ◌/◌, ◌%◌, ◌^◌, ◌<◌, ◌≢◌, Option, none, List, [], ◌∷◌, ◌++◌, ltb,
  if◌then◌else◌, length, All,
}
use flowspec_vpp_agent.Detector.Sample.{Sample, IngressName, unnamed, ifindex}
use flowspec_vpp_agent.Packet.{decode_ethernet, decode_ipv4, decode_ipv6}
use flowspec_vpp_agent.Sflow.{prepend}

-- A 32-bit word, and what follows.
abbrev pub quad : ℕ → List ℕ → List ℕ
quad v rest = (v / 2 ^ 24) ∷ (v / 2 ^ 16 % 256) ∷ (v / 256 % 256) ∷ (v % 256) ∷ rest

unfoldable pub zeros : ℕ → List ℕ
zeros zero = []
zeros (suc n) = 0 ∷ zeros n

-- XDR fills up opaque data to a multiple of four bytes.
unfoldable pub fill : ℕ → ℕ
fill zero = 0
fill (suc zero) = 3
fill (suc (suc zero)) = 2
fill (suc (suc (suc zero))) = 1
fill (suc (suc (suc (suc n)))) = fill n

-- A format, a length, the payload and its padding.
unfoldable pub framed : ℕ → List ℕ → List ℕ → List ℕ
framed format payload rest =
    quad format (quad (length payload) (payload ++ (zeros (fill (length payload)) ++ rest)))

-- What a raw header starts with, by the numbers of the specification.
pub data HeaderProtocol : Type 0 where
  ethernet ipv4 ipv6 : HeaderProtocol
  unread : ℕ → HeaderProtocol

unfoldable pub protocol_number : HeaderProtocol → ℕ
protocol_number ethernet = 1
protocol_number ipv4 = 11
protocol_number ipv6 = 12
protocol_number (unread n) = n

abbrev pub ProtocolFits : HeaderProtocol → Type 0
ProtocolFits (unread n) = (n < 2 ^ 32) × (n ≢ 1) × (n ≢ 11) × (n ≢ 12)
ProtocolFits _ = Unit

-- An interface: not known, inside the agent, or an index below a two-bit format.
pub data Interface : Type 0 where
  unknown_interface internal_interface : Interface
  numbered : ℕ → ℕ → Interface

unfoldable pub interface_value : Interface → ℕ
interface_value unknown_interface = 0
interface_value internal_interface = 0x3fffffff
interface_value (numbered format index) = format * 2 ^ 30 + index

abbrev pub InterfaceFits : Interface → Type 0
InterfaceFits (numbered format index) =
    (format < 4)
    × (index < 2 ^ 30)
    × (format * 2 ^ 30 + index ≢ 0)
    × (format * 2 ^ 30 + index ≢ 0x3fffffff)
InterfaceFits _ = Unit

unfoldable pub interface_name : Interface → IngressName
interface_name (numbered format index) = ifindex index
interface_name _ = unnamed

pub record RawRecord : Type 0 where
  pub protocol : HeaderProtocol
  pub frame_len : ℕ
  pub stripped : ℕ
  pub header : List ℕ

pub record FlowSample : Type 0 where
  pub sequence : ℕ
  pub source_id : ℕ
  pub rate : ℕ
  pub pool : ℕ
  pub drops : ℕ
  pub input : Interface
  pub output : ℕ
  pub records : List RawRecord

pub record Datagram : Type 0 where
  pub agent : ℕ
  pub sub_agent : ℕ
  pub sequence : ℕ
  pub uptime : ℕ
  pub samples : List FlowSample

abbrev pub raw_bytes : RawRecord → List ℕ
raw_bytes r =
    quad (protocol_number r.protocol)
      (quad r.frame_len (quad r.stripped (quad (length r.header) r.header)))

unfoldable pub record_bytes : List RawRecord → List ℕ
record_bytes [] = []
record_bytes (r ∷ rs) = framed 1 (raw_bytes r) (record_bytes rs)

unfoldable pub flow_bytes : FlowSample → List ℕ
flow_bytes f = quad f.sequence (
    quad f.source_id (
      quad f.rate (
        quad f.pool (
          quad f.drops (
            quad (interface_value f.input)
              (quad f.output (quad (length f.records) (record_bytes f.records))))))))

unfoldable pub sample_bytes : List FlowSample → List ℕ
sample_bytes [] = []
sample_bytes (f ∷ fs) = framed 1 (flow_bytes f) (sample_bytes fs)

unfoldable pub datagram_bytes : Datagram → List ℕ
datagram_bytes d = quad 5 (
    quad 1 (
      quad d.agent (
        quad d.sub_agent
          (quad d.sequence (quad d.uptime (quad (length d.samples) (sample_bytes d.samples)))))))

-- Every number is a uint32, the lengths and counts that are written included.
pub record RawRecordFits (r : RawRecord) : Type 0 where
  pub protocol_fits : ProtocolFits r.protocol
  pub frame_len_fits : r.frame_len < 2 ^ 32
  pub stripped_fits : r.stripped < 2 ^ 32
  pub header_fits : length r.header + 16 < 2 ^ 32

pub record FlowSampleFits (f : FlowSample) : Type 0 where
  pub sequence_fits : f.sequence < 2 ^ 32
  pub source_id_fits : f.source_id < 2 ^ 32
  pub rate_fits : f.rate < 2 ^ 32
  pub pool_fits : f.pool < 2 ^ 32
  pub drops_fits : f.drops < 2 ^ 32
  pub input_fits : InterfaceFits f.input
  pub output_fits : f.output < 2 ^ 32
  pub length_fits : length (flow_bytes f) < 2 ^ 32
  pub count_fits : length f.records < 2 ^ 32
  pub records_fit : All RawRecordFits f.records

pub record DatagramFits (d : Datagram) : Type 0 where
  pub agent_fits : d.agent < 2 ^ 32
  pub sub_agent_fits : d.sub_agent < 2 ^ 32
  pub sequence_fits : d.sequence < 2 ^ 32
  pub uptime_fits : d.uptime < 2 ^ 32
  pub count_fits : length d.samples < 2 ^ 32
  pub samples_fit : All FlowSampleFits d.samples

-- A rate of zero counts as one.
unfoldable pub rate_of : ℕ → ℕ
rate_of zero = 1
rate_of (suc n) = suc n

module _ (oob : ℕ) (bad : List ℕ) where
  unfoldable pub decoded : HeaderProtocol → List ℕ → Option Sample
  decoded ethernet h = decode_ethernet oob bad h
  decoded ipv4 h = decode_ipv4 oob bad h
  decoded ipv6 h = decode_ipv6 oob bad h
  decoded (unread _) h = none

module _ (now : ℕ) where
  -- The sample of a record: addresses, ports and flags are those of its header, the length is the
  -- frame's on the wire, at most 65535, and the rest is the flow sample's.
  unfoldable pub sample_of : FlowSample → RawRecord → Sample → Sample
  sample_of f r s = record {
    seen_at = now;
    family = s.family;
    src = s.src;
    dst = s.dst;
    proto = s.proto;
    src_port = s.src_port;
    dst_port = s.dst_port;
    packet_len = if ltb r.frame_len 65536 then r.frame_len else 65535;
    tcp_flags = s.tcp_flags;
    icmp_type = s.icmp_type;
    icmp_code = s.icmp_code;
    ingress_if = interface_name f.input;
    sample_rate = rate_of f.rate;
  }

module _ (oob : ℕ) (bad : List ℕ) (now : ℕ) where
  unfoldable pub sampled : FlowSample → RawRecord → Option Sample
  sampled f r = Option.map (sample_of now f r) (decoded oob bad r.protocol r.header)

  unfoldable pub collect : FlowSample → List RawRecord → List Sample
  collect f [] = []
  collect f (r ∷ rs) = prepend (sampled f r) (collect f rs)

  unfoldable pub collect_all : List FlowSample → List Sample
  collect_all [] = []
  collect_all (f ∷ fs) = collect f f.records ++ collect_all fs
