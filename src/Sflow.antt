-- ===== src/Sflow.antt =====
-- internal/sflow/decode.go: an sFlow v5 datagram decoded into samples. A read outside a packet header
-- gives the parameters `oob` and `bad`, as in the decoders of packet headers.
pub mod Reader
pub mod Framing
pub mod Format
pub mod Fields
pub mod Limits
pub mod RoundTrip
pub mod InBounds
use flowspec_vpp_agent.Prelude.{
  ℕ, zero, suc, ◌+◌, ◌*◌, ◌%◌, ◌^◌, Bool, true, false, ◌||◌, Option, none, some, List, [], ◌∷◌,
  ◌++◌, leb, ltb, ◌==◌, if◌then◌else◌, length,
}
use mathlib.Core.Option
use flowspec_vpp_agent.Data.Bytes.{big_endian}
use flowspec_vpp_agent.Data.Result.{Result, ok, err, ◌>>=◌, ◌>>◌, guard, require, with_error}
use flowspec_vpp_agent.Flowspec.{Addr, ip4, ip6}
use flowspec_vpp_agent.Detector.Sample.{Sample, IngressName, unnamed, ifindex}
use flowspec_vpp_agent.Packet.{clamp_u16, decode_ethernet, decode_ipv4, decode_ipv6}

-- The errors, by their texts.
pub data Error : Type 0 where
  short_datagram short_agent_address short_sub_agent_id short_sequence short_uptime
        short_sample_count short_sample_type short_sample_payload short_sample_padding :
      Error
  unsupported_version : ℕ → Error
  short_flow_sequence short_flow_source_id short_flow_rate short_flow_pool short_flow_drops
        short_flow_input short_flow_output :
      Error
  short_expanded_sequence short_expanded_source_id_class short_expanded_source_id_index
        short_expanded_rate short_expanded_pool short_expanded_drops short_expanded_input_format
        short_expanded_input_value short_expanded_output_format short_expanded_output_value :
      Error
  short_record_count short_record_type short_record_payload short_record_padding : Error

-- `ifIndexName`
unfoldable pub if_index_name : ℕ → IngressName
if_index_name v = if v == 0 || v == 0x3fffffff then unnamed else ifindex (v % 2 ^ 30)

-- What the fields before the records say, and the bytes behind them.
pub record Preamble : Type 0 where
  pub rate : ℕ
  pub input_if : IngressName
  pub rest : List ℕ

pub record Frame : Type 0 where
  pub format : ℕ
  pub payload : List ℕ
  pub rest : List ℕ

pub record Raw : Type 0 where
  pub protocol : ℕ
  pub frame_len : ℕ
  pub header : List ℕ

-- The fields that `decodeRawHeader` sets on a decoded header
unfoldable pub stamp : ℕ → ℕ → ℕ → IngressName → Sample → Sample
stamp now frame_len sample_rate input_if s = record s {
  seen_at = now;
  packet_len = clamp_u16 frame_len;
  ingress_if = input_if;
  sample_rate = if sample_rate == 0 then 1 else sample_rate;
}

module _ (oob : ℕ) where
  abbrev pub word : {E : Type 0} → E → List ℕ → Result E (ℕ × List ℕ)
  word e r = require e (Reader.u32 oob r)

  -- `case sampleFlowSample` of `decodeSample`
  unfoldable pub flow_preamble : List ℕ → Result Error Preamble
  flow_preamble r = do
    (_, r) ← word short_flow_sequence r
    (_, r) ← word short_flow_source_id r
    (rate, r) ← word short_flow_rate r
    (_, r) ← word short_flow_pool r
    (_, r) ← word short_flow_drops r
    (input, r) ← word short_flow_input r
    (_, r) ← word short_flow_output r
    ok (record { rate = rate; input_if = if_index_name input; rest = r })

  -- `case sampleExpandedFlowSample` of `decodeSample`
  unfoldable pub expanded_preamble : List ℕ → Result Error Preamble
  expanded_preamble r = do
    (_, r) ← word short_expanded_sequence r
    (_, r) ← word short_expanded_source_id_class r
    (_, r) ← word short_expanded_source_id_index r
    (rate, r) ← word short_expanded_rate r
    (_, r) ← word short_expanded_pool r
    (_, r) ← word short_expanded_drops r
    (_, r) ← word short_expanded_input_format r
    (input, r) ← word short_expanded_input_value r
    (_, r) ← word short_expanded_output_format r
    (_, r) ← word short_expanded_output_value r
    ok (record { rate = rate; input_if = if_index_name input; rest = r })

module _ (oob : ℕ) (bad : List ℕ) where
  -- The head of both loops: a format, a length, so many bytes and their padding.
  unfoldable pub frame : Error → Error → Error → List ℕ → Result Error Frame
  frame no_type no_payload no_padding r = do
    (format, r) ← word oob no_type r
    (l, r) ← word oob no_payload r
    guard (leb l (Reader.left r)) no_payload
    let taken = Reader.read_take bad l r
    r ← require no_padding (Reader.skip bad (Reader.pad4 l) (taken.1))
    ok (record { format = format; payload = taken.0; rest = r })

  -- The reads of `decodeRawHeader`
  unfoldable pub raw_fields : List ℕ → Result (Unit {0}) Raw
  raw_fields r = do
    (protocol, r) ← word oob tt r
    (frame_len, r) ← word oob tt r
    (_, r) ← word oob tt r
    (header_len, r) ← word oob tt r
    guard (leb header_len (Reader.left r)) tt
    ok (record {
      protocol = protocol;
      frame_len = frame_len;
      header = (Reader.read_take bad header_len r).0;
    })

  -- `readAgent`
  unfoldable pub read_agent : List ℕ → Result (Unit {0}) (Addr × List ℕ)
  read_agent r = do
    (typ, r) ← word oob tt r
    if typ == 1
        then (do (b, r) ← require tt (Reader.bytes bad 4 r); ok (ip4 (big_endian oob b 0 4), r))
        else if typ == 2
        then (do (b, r) ← require tt (Reader.bytes bad 16 r); ok (ip6 (big_endian oob b 0 16), r))
        else err tt

-- `if ok { out = append(out, s) }`
abbrev pub prepend : Option Sample → List Sample → List Sample
prepend none later = later
prepend (some s) later = s ∷ later

module _ (oob : ℕ) (bad : List ℕ) where
  -- The `switch` on the header protocol in `decodeRawHeader`
  unfoldable pub decode_header : ℕ → List ℕ → Option Sample
  decode_header protocol header =
      if protocol == 1
      then decode_ethernet oob bad header
      else if protocol == 11
      then decode_ipv4 oob bad header
      else if protocol == 12
      then decode_ipv6 oob bad header
      else none

  -- `decodeRawHeader`
  unfoldable pub decode_raw_header : List ℕ → ℕ → ℕ → IngressName → Option Sample
  decode_raw_header r now sample_rate input_if = elim (raw_fields oob bad r) [
    | err _ ↦ none
    | ok raw ↦
        Option.map (stamp now raw.frame_len sample_rate input_if)
          (decode_header raw.protocol raw.header)
  ]

  -- The loop over the records in `decodeSample`
  unfoldable pub decode_records : ℕ → ℕ → Preamble → List ℕ → Result Error (List Sample)
  decode_records zero now p r = ok []
  decode_records (suc i) now p r = do
    f ← frame oob bad short_record_type short_record_payload short_record_padding r
    later ← decode_records i now p f.rest
    ok (
        if f.format % 2 ^ 12 == 1
        then prepend (decode_raw_header f.payload now p.rate p.input_if) later
        else later)

  -- The part of `decodeSample` behind its `switch`
  unfoldable pub decode_flow : Result Error Preamble → ℕ → Result Error (List Sample)
  decode_flow preamble now = do
    p ← preamble
    (n, r) ← word oob short_record_count p.rest
    decode_records n now p r

  -- `decodeSample`
  unfoldable pub decode_sample : ℕ → List ℕ → ℕ → Result Error (List Sample)
  decode_sample format r now =
      if format == 1
      then decode_flow (flow_preamble oob r) now
      else if format == 3
      then decode_flow (expanded_preamble oob r) now
      else ok []

  -- The loop over the samples in `Decoder.Decode`
  unfoldable pub decode_samples : ℕ → ℕ → List ℕ → Result Error (List Sample)
  decode_samples zero now r = ok []
  decode_samples (suc i) now r = do
    f ← frame oob bad short_sample_type short_sample_payload short_sample_padding r
    decoded ← decode_sample (f.format % 2 ^ 12) f.payload now
    later ← decode_samples i now f.rest
    ok (decoded ++ later)

  -- `Decoder.Decode`
  unfoldable pub decode : List ℕ → ℕ → Result Error (List Sample)
  decode r now = do
    (version, r) ← word oob short_datagram r
    guard (version == 5) (unsupported_version version)
    (_, r) ← with_error short_agent_address (read_agent oob bad r)
    (_, r) ← word oob short_sub_agent_id r
    (_, r) ← word oob short_sequence r
    (_, r) ← word oob short_uptime r
    (n, r) ← word oob short_sample_count r
    decode_samples n now r
