-- ===== src/Sflow/RoundTrip.antt =====
-- internal/sflow's decoder on a datagram that is written out after the specification.
use mathlib.Core.Option
use flowspec_vpp_agent.Prelude.{
  ℕ, ◌^◌, ◌<◌, ◌≡◌, refl, ap, true, List, [], ◌∷◌, ◌++◌, leb, le→leb, length, length-append, All,
  arith,
}
use flowspec_vpp_agent.Data.Result.{ok}
use flowspec_vpp_agent.Sflow.{
  Error, frame, raw_fields, Preamble, flow_preamble, if_index_name, decode_raw_header,
  decode_records, decode_flow, decode_sample, decode_samples, decode, read_agent,
}
use flowspec_vpp_agent.Sflow.Reader.{left}
use flowspec_vpp_agent.Sflow.Format.{
  quad, zeros, fill, framed, protocol_number, interface_value, InterfaceFits, RawRecord, FlowSample,
  Datagram, raw_bytes, record_bytes, flow_bytes, sample_bytes, datagram_bytes, RawRecordFits,
  FlowSampleFits, DatagramFits, decoded, sampled, collect, collect_all,
}
use flowspec_vpp_agent.Sflow.Fields.{
  pad4-eq-fill, protocol_number-lt, interface_value-lt, decode_header-decoded, stamp-sample_of,
  word-quad, read_take-append, bytes-quad, read_take_all, skip-zeros,
}

module _ (oob : ℕ) (bad : List ℕ) where
  frame-framed :
      (e₁ e₂ e₃ : Error) (format : ℕ) (payload rest : List ℕ)
      → format < 2 ^ 32
      → length payload < 2 ^ 32
      → frame oob bad e₁ e₂ e₃ (framed format payload rest)
        ≡ ok (record { format = format; payload = payload; rest = rest })
  unfolding frame framed left
  frame-framed e₁ e₂ e₃ format payload rest hf hp =
      let behind = zeros (fill (length payload)) ++ rest in
      let fits : leb (length payload) (length (payload ++ behind)) ≡ true =
        le→leb _ _ (omega (arith, length-append payload behind)) in
      rw (word-quad oob e₁ format (quad (length payload) (payload ++ behind)) hf) (
        rw (word-quad oob e₂ (length payload) (payload ++ behind) hp) (
          rw
            (
              fits,
              read_take-append bad payload behind,
              pad4-eq-fill (length payload),
              skip-zeros bad (fill (length payload)) rest,
            )
            refl))

  raw_fields-raw_bytes :
      (r : RawRecord)
      → RawRecordFits r
      → raw_fields oob bad (raw_bytes r)
        ≡ ok (record {
          protocol = protocol_number r.protocol;
          frame_len = r.frame_len;
          header = r.header;
        })
  unfolding raw_fields left
  raw_fields-raw_bytes r h =
      let fits : leb (length r.header) (length r.header) ≡ true = le→leb _ _ (omega arith) in
      rw
        (word-quad oob tt (protocol_number r.protocol)
          (quad r.frame_len (quad r.stripped (quad (length r.header) r.header)))
          (protocol_number-lt r.protocol h.protocol_fits))
        (rw
          (word-quad oob tt r.frame_len (quad r.stripped (quad (length r.header) r.header))
            h.frame_len_fits)
          (rw (word-quad oob tt r.stripped (quad (length r.header) r.header) h.stripped_fits) (
            rw (word-quad oob tt (length r.header) r.header (let k = h.header_fits in omega arith))
              (rw (fits, read_take_all bad r.header) refl))))

module _ (oob : ℕ) (bad : List ℕ) (now : ℕ) where
  preamble_of : FlowSample → Preamble
  preamble_of f = record {
    rate = f.rate;
    input_if = if_index_name (interface_value f.input);
    rest = quad (length f.records) (record_bytes f.records);
  }

  raw_header-sampled :
      (f : FlowSample) (r : RawRecord)
      → InterfaceFits f.input
      → RawRecordFits r
      → decode_raw_header oob bad (raw_bytes r) now f.rate (if_index_name (interface_value f.input))
        ≡ sampled oob bad now f r
  unfolding decode_raw_header sampled
  raw_header-sampled f r k h =
      rw (raw_fields-raw_bytes oob bad r h, decode_raw_header)
        (rw (decode_header-decoded oob bad r.protocol r.header h.protocol_fits) (
          ap (λ g. Option.map g (decoded oob bad r.protocol r.header))
            (λ i s. stamp-sample_of now f r s k i)))

  decode_records-record_bytes :
      (f : FlowSample) (p : Preamble) (rs : List RawRecord)
      → p.rate ≡ f.rate
      → p.input_if ≡ if_index_name (interface_value f.input)
      → InterfaceFits f.input
      → All RawRecordFits rs
      → decode_records oob bad (length rs) now p (record_bytes rs) ≡ ok (collect oob bad now f rs)
  unfolding decode_records record_bytes collect
  decode_records-record_bytes f p [] hr hi k h = refl
  decode_records-record_bytes f p (r ∷ rs) hr hi k h =
      rw
        (frame-framed oob bad _ _ _ 1 (raw_bytes r) (record_bytes rs) (omega arith)
          (let k = h.0.header_fits in omega arith))
        (rw (decode_records-record_bytes f p rs hr hi k h.1)
          (rw (hr, hi, raw_header-sampled f r k h.0) refl))

  flow_preamble-flow_bytes :
      (f : FlowSample) → FlowSampleFits f → flow_preamble oob (flow_bytes f) ≡ ok (preamble_of f)
  unfolding flow_preamble flow_bytes preamble_of
  flow_preamble-flow_bytes f h =
      let r₇ = quad (length f.records) (record_bytes f.records) in
      let r₆ = quad f.output r₇ in
      let r₅ = quad (interface_value f.input) r₆ in
      let r₄ = quad f.drops r₅ in
      let r₃ = quad f.pool r₄ in
      let r₂ = quad f.rate r₃ in
      let r₁ = quad f.source_id r₂ in
      rw (word-quad oob Error.short_flow_sequence f.sequence r₁ h.sequence_fits) (
        rw (word-quad oob Error.short_flow_source_id f.source_id r₂ h.source_id_fits) (
          rw (word-quad oob Error.short_flow_rate f.rate r₃ h.rate_fits) (
            rw (word-quad oob Error.short_flow_pool f.pool r₄ h.pool_fits) (
              rw (word-quad oob Error.short_flow_drops f.drops r₅ h.drops_fits) (
                rw
                  (word-quad oob Error.short_flow_input (interface_value f.input) r₆
                    (interface_value-lt f.input h.input_fits))
                  (rw (word-quad oob Error.short_flow_output f.output r₇ h.output_fits) refl))))))

  decode_sample-flow_bytes :
      (f : FlowSample)
      → FlowSampleFits f
      → decode_sample oob bad 1 (flow_bytes f) now ≡ ok (collect oob bad now f f.records)
  unfolding decode_sample decode_flow preamble_of
  decode_sample-flow_bytes f h = rw (flow_preamble-flow_bytes f h) (
      rw
        (word-quad oob Error.short_record_count (length f.records) (record_bytes f.records)
          h.count_fits)
        (decode_records-record_bytes f (preamble_of f) f.records refl refl h.input_fits
          h.records_fit))

  decode_samples-sample_bytes :
      (fs : List FlowSample)
      → All FlowSampleFits fs
      → decode_samples oob bad (length fs) now (sample_bytes fs) ≡ ok (collect_all oob bad now fs)
  unfolding decode_samples sample_bytes collect_all
  decode_samples-sample_bytes [] h = refl
  decode_samples-sample_bytes (f ∷ fs) h =
      rw
        (frame-framed oob bad _ _ _ 1 (flow_bytes f) (sample_bytes fs) (omega arith)
          h.0.length_fits)
        (rw (decode_sample-flow_bytes f h.0) (rw (decode_samples-sample_bytes fs h.1) refl))

  -- A datagram of flow samples, written out with an IPv4 agent, its numbers in range and its records
  -- raw headers, decodes without an error to the samples of its records in order. Each has the fields
  -- of its header as the decoder of the header's protocol reads them, the time of receipt, its frame's
  -- length on the wire or 65535 if that is less, the rate of its flow sample or 1 if that is zero, and
  -- the index of the ingress interface without its format; an unknown or internal interface has no
  -- name. A header that does not decode, or whose protocol is another one, gives nothing.
  pub decode-datagram_bytes :
      (d : Datagram)
      → DatagramFits d
      → decode oob bad (datagram_bytes d) now ≡ ok (collect_all oob bad now d.samples)
  unfolding decode datagram_bytes read_agent
  decode-datagram_bytes d h =
      let r₆ = quad (length d.samples) (sample_bytes d.samples) in
      let r₅ = quad d.uptime r₆ in
      let r₄ = quad d.sequence r₅ in
      let r₃ = quad d.sub_agent r₄ in
      let r₂ = quad d.agent r₃ in
      rw (word-quad oob Error.short_datagram 5 (quad 1 r₂) (omega arith)) (
        rw (word-quad oob tt 1 r₂ (omega arith)) (
          rw (bytes-quad bad tt d.agent r₃) (
            rw (word-quad oob Error.short_sub_agent_id d.sub_agent r₄ h.sub_agent_fits) (
              rw (word-quad oob Error.short_sequence d.sequence r₅ h.sequence_fits) (
                rw (word-quad oob Error.short_uptime d.uptime r₆ h.uptime_fits) (
                  rw
                    (word-quad oob Error.short_sample_count (length d.samples)
                      (sample_bytes d.samples) h.count_fits)
                    (decode_samples-sample_bytes d.samples h.samples_fit)))))))
