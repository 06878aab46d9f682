-- ===== src/Examples/Flows.antt =====
-- An sFlow datagram and a PSAMPLE message on concrete bytes, and the theorems on their decoders.
use flowspec_vpp_agent.Prelude.{
  ℕ, ◌≡◌, ◌≤◌, ◌*◌, refl, false, List, [], ◌∷◌, All, length, some, if◌then◌else◌, ◌==◌, arith,
}
use flowspec_vpp_agent.Data.Bytes.{Bytes, at, big_endian, slice_from, drop}
use flowspec_vpp_agent.Data.Result.{ok}
use flowspec_vpp_agent.Flowspec.{ip4, family_ipv4}
use flowspec_vpp_agent.Detector.Sample.{Sample, ifindex}
use flowspec_vpp_agent.Packet.{
  udp, from_ethernet, decode_ethernet, decode_ipv4, decode_payload, peel, fill_ports, layer3,
}
use flowspec_vpp_agent.Packet.Fields.{Fits}
use flowspec_vpp_agent.Packet.RoundTrip.{
  Header, HeaderFits, datagram, port_bytes, decode-datagram-udp,
}
use flowspec_vpp_agent.Sflow.{decode}
use flowspec_vpp_agent.Sflow.Limits.{Decoded, decode-length, decode-Decoded}
use flowspec_vpp_agent.Sflow.Format.{
  FlowSample, Datagram, DatagramFits, datagram_bytes, flow_bytes, record_bytes, sample_bytes,
  framed, collect_all, zeros, fill, ethernet, numbered, protocol_number, interface_value,
}
use flowspec_vpp_agent.Sflow.RoundTrip.{decode-datagram_bytes}
use flowspec_vpp_agent.Psample
use flowspec_vpp_agent.Psample.{
  Message, sample_group, iif_index, packet_data, read_fields, set_field, is_other_group, ifname,
  AllBytes, Wanted, decode-Wanted,
}
use flowspec_vpp_agent.Examples.Datagrams.{udp_frame, udp_sample}

-- A header with one word of options.
abbrev header : Header
header = record {
  words = 1;
  service = 0;
  total_len = 60;
  identification = 9;
  flags = 0;
  fragment_offset = 0;
  ttl = 64;
  proto = 17;
  checksum = 0;
  src = 3221225985;
  dst = 3325256706;
}

abbrev options : List ℕ
options = 1 ∷ 1 ∷ 1 ∷ 0 ∷ []

abbrev header_fits : HeaderFits header
header_fits = record {
  words_fits = omega arith;
  total_len_fits = omega arith;
  flags_fits = omega arith;
  fragment_offset_fits = omega arith;
  src_fits = omega arith;
  dst_fits = omega arith;
}

decode-datagram-udp_example :
    decode_ipv4 0 [] (datagram header options (port_bytes 53 4660 []))
    ≡ some (record (layer3 family_ipv4 (ip4 3221225985) (ip4 3325256706) udp 60) {
      src_port = if 0 == 0 then 53 else 0;
      dst_port = if 0 == 0 then 4660 else 0;
    })
decode-datagram-udp_example =
    decode-datagram-udp 0 [] header options (port_bytes 53 4660 []) header_fits refl 53 4660 [] refl
      refl

-- A flow sample with one record.
abbrev flow : FlowSample
flow = record {
  sequence = 1;
  source_id = 2;
  rate = 1000;
  pool = 5000;
  drops = 0;
  input = numbered 0 3;
  output = 4;
  records = record { protocol = ethernet; frame_len = 1500; stripped = 4; header = udp_frame } ∷ [];
}

abbrev sampled_datagram : Datagram
sampled_datagram = record {
  agent = 3221225985;
  sub_agent = 0;
  sequence = 7;
  uptime = 99;
  samples = flow ∷ [];
}

sampled_datagram-DatagramFits : DatagramFits sampled_datagram
unfolding flow_bytes record_bytes framed zeros fill protocol_number interface_value
sampled_datagram-DatagramFits = omega arith

decode-datagram_bytes_example :
    decode 0 [] (datagram_bytes sampled_datagram) 5 ≡ ok (collect_all 0 [] 5 (flow ∷ []))
decode-datagram_bytes_example =
    decode-datagram_bytes 0 [] 5 sampled_datagram sampled_datagram-DatagramFits

decode-length_example :
    44 * length (collect_all 0 [] 5 (flow ∷ [])) ≤ length (datagram_bytes sampled_datagram)
decode-length_example =
    decode-length 0 [] (datagram_bytes sampled_datagram) 5 (collect_all 0 [] 5 (flow ∷ []))
      decode-datagram_bytes_example

datagram_bytes-Bytes : Bytes (datagram_bytes sampled_datagram)
unfolding datagram_bytes sample_bytes flow_bytes record_bytes framed zeros fill protocol_number
    interface_value
datagram_bytes-Bytes = omega arith

decode-Decoded_example : All (Decoded 5) (collect_all 0 [] 5 (flow ∷ []))
decode-Decoded_example =
    decode-Decoded 0 [] (datagram_bytes sampled_datagram) 5 (collect_all 0 [] 5 (flow ∷ []))
      datagram_bytes-Bytes decode-datagram_bytes_example

abbrev message : Message
message = record {
  attributes = iif_index 3 ∷ sample_group 1 ∷ packet_data udp_frame ∷ [];
  failed = false;
}

abbrev message_sample : Sample
message_sample = record udp_sample { seen_at = 5; ingress_if = ifindex 3; sample_rate = 1 }

message_decoded : Psample.decode 0 [] 1 message 5 ≡ some message_sample
unfolding Psample.decode read_fields set_field is_other_group ifname from_ethernet decode_ethernet
    decode_payload decode_ipv4 peel fill_ports layer3 big_endian at slice_from drop
message_decoded = refl

message-AllBytes : AllBytes message.attributes
message-AllBytes = omega arith

decode-Wanted_example :
    (message.failed ≡ false)
    × Wanted 1 message
    × Fits message_sample
    × (1 ≤ message_sample.sample_rate)
    × (message_sample.seen_at ≡ 5)
decode-Wanted_example =
    decode-Wanted 0 [] 1 message 5 message_sample message-AllBytes message_decoded
