-- ===== src/Sflow/Limits.antt =====
-- What internal/sflow hands to the detector: how many samples a datagram gives, and their fields.
use mathlib.Core.Option
use flowspec_vpp_agent.Prelude.{
  ℕ, zero, suc, ◌*◌, ◌%◌, ◌^◌, ◌≤◌, ◌<◌, ◌≡◌, refl, Option, none, some, List, ◌==◌, length,
  length-append, All, All-append, inl, inr, Bool-cases, Option-cases, some_eq, arith, subst,
}
use flowspec_vpp_agent.Data.Bytes.{Bytes}
use flowspec_vpp_agent.Data.Result.{
  Result, ok, err, Ensures, holds, fails, >>=-Ensures, guard-Ensures, with_error-Ensures,
  Ensures-weaken, ensured,
}
use flowspec_vpp_agent.Detector.Sample.{Sample, IngressName}
use flowspec_vpp_agent.Packet.Fields.{
  Fits, clamp_u16-lt, decode_ethernet-Fits, decode_ipv4-Fits, decode_ipv6-Fits,
  decode_ethernet-length, decode_ipv4-length, decode_ipv6-length,
}
use flowspec_vpp_agent.Sflow.{
  Error, Raw, raw_fields, stamp, Preamble, flow_preamble, expanded_preamble, decode_header,
  decode_raw_header, decode_records, decode_flow, decode_sample, decode_samples, decode, read_agent,
}
use flowspec_vpp_agent.Sflow.Framing.{
  Within, Within-trans, bytes-Within, word-Word, Word-Within, frame-Framed, RawFits,
  raw_fields-RawFits,
}

pub record Decoded (now : ℕ) (s : Sample) : Type 0 where
  pub fits : Fits s
  pub rate_positive : 1 ≤ s.sample_rate
  pub rate_fits : s.sample_rate < 2 ^ 32
  pub stamped : s.seen_at ≡ now

pub stamp-Decoded :
    (now frame_len rate : ℕ) (input : IngressName) (s : Sample)
    → Fits s
    → rate < 2 ^ 32
    → Decoded now (stamp now frame_len rate input s)
unfolding stamp
stamp-Decoded now frame_len rate input s f r = record {
  fits = record {
    src_fits = f.src_fits;
    dst_fits = f.dst_fits;
    proto_fits = f.proto_fits;
    src_port_fits = f.src_port_fits;
    dst_port_fits = f.dst_port_fits;
    packet_len_fits = clamp_u16-lt frame_len;
    tcp_flags_fits = f.tcp_flags_fits;
    icmp_type_fits = f.icmp_type_fits;
    icmp_code_fits = f.icmp_code_fits;
  };
  rate_positive = ground arith;
  rate_fits = ground arith;
  stamped = refl;
}

-- The bytes that samples come from: 8 for a record's framing, 16 for its fields, 20 for an IP header.
record Good (now : ℕ) (r : List ℕ) (samples : List Sample) : Type 0 where
  few : 44 * length samples ≤ length r
  all_decoded : Bytes r → All (Decoded now) samples

record Kept (r : List ℕ) (p : Preamble) : Type 0 where
  within : Within r p.rest
  rate_kept : Bytes r → p.rate < 2 ^ 32

module _ (oob : ℕ) where
  flow_preamble-Kept : (r : List ℕ) → Ensures (Kept r) (flow_preamble oob r)
  unfolding flow_preamble
  flow_preamble-Kept r = >>=-Ensures (word-Word oob _ r) (λ a t.
      >>=-Ensures (word-Word oob _ (a.1)) (λ b u. >>=-Ensures (word-Word oob _ (b.1)) (λ c v.
        let before = Within-trans (Word-Within t) (Word-Within u) in
        >>=-Ensures (word-Word oob _ (c.1)) (λ d w. >>=-Ensures (word-Word oob _ (d.1)) (λ e x.
          >>=-Ensures (word-Word oob _ (e.1)) (λ f y. >>=-Ensures (word-Word oob _ (f.1)) (λ g z.
            holds _ (record {
              within = Within-trans before (
                  Within-trans (Within-trans (Word-Within v) (Word-Within w))
                    (Within-trans (Word-Within x) (Within-trans (Word-Within y) (Word-Within z))));
              rate_kept = λ h. (v.word_bytes (before.still_bytes h)).0;
            }))))))))

  expanded_preamble-Kept : (r : List ℕ) → Ensures (Kept r) (expanded_preamble oob r)
  unfolding expanded_preamble
  expanded_preamble-Kept r = >>=-Ensures (word-Word oob _ r) (λ a p.
      >>=-Ensures (word-Word oob _ (a.1)) (λ b q. >>=-Ensures (word-Word oob _ (b.1)) (λ c s.
        let before = Within-trans (Word-Within p) (Within-trans (Word-Within q) (Word-Within s)) in
        >>=-Ensures (word-Word oob _ (c.1)) (λ d t. >>=-Ensures (word-Word oob _ (d.1)) (λ e u.
          >>=-Ensures (word-Word oob _ (e.1)) (λ f v. >>=-Ensures (word-Word oob _ (f.1)) (λ g w.
            >>=-Ensures (word-Word oob _ (g.1)) (λ h x. >>=-Ensures (word-Word oob _ (h.1)) (λ i y.
              >>=-Ensures (word-Word oob _ (i.1)) (λ j z. holds _ (record {
                within = Within-trans before (
                    Within-trans (Within-trans (Word-Within t) (Word-Within u)) (
                      Within-trans (Within-trans (Word-Within v) (Word-Within w)) (
                        Within-trans (Word-Within x)
                          (Within-trans (Word-Within y) (Word-Within z)))));
                rate_kept = λ k. (t.word_bytes (before.still_bytes k)).0;
              })))))))))))

  read_agent-Within : (bad r : List ℕ) → Ensures (λ x. Within r x.1) (read_agent oob bad r)
  unfolding read_agent
  read_agent-Within bad r = >>=-Ensures (word-Word oob tt r) (λ a u. elim (Bool-cases (a.0 == 1)) [
    | inl t ↦ rw t (
        >>=-Ensures (bytes-Within bad tt 4 (a.1)) (λ b v. holds _ (Within-trans (Word-Within u) v)))
    | inr t ↦ rw t (elim (Bool-cases (a.0 == 2)) [
      | inl k ↦ rw k (
          >>=-Ensures (bytes-Within bad tt 16 (a.1))
            (λ b v. holds _ (Within-trans (Word-Within u) v)))
      | inr k ↦ rw k (fails tt)
    ])
  ])

module _ (oob : ℕ) (bad : List ℕ) where
  decode_header-Fits :
      (protocol : ℕ) (header : List ℕ) (s : Sample)
      → decode_header oob bad protocol header ≡ some s
      → (20 ≤ length header) × (Bytes header → Fits s)
  unfolding decode_header
  decode_header-Fits protocol header s h = (
    ground (
      arith,
      decode_ethernet-length oob bad header s,
      decode_ipv4-length oob bad header s,
      decode_ipv6-length oob bad header s,
    ),
    λ b. ground (
      arith,
      decode_ethernet-Fits oob bad header s b,
      decode_ipv4-Fits oob bad header s b,
      decode_ipv6-Fits oob bad header s b,
    ),
  )

  raw_header-Decoded :
      (r : List ℕ) (now rate : ℕ) (input : IngressName) (s : Sample)
      → decode_raw_header oob bad r now rate input ≡ some s
      → (36 ≤ length r) × (Bytes r → rate < 2 ^ 32 → Decoded now s)
  unfolding decode_raw_header
  raw_header-Decoded r now rate input s h =
      found (raw_fields oob bad r) (raw_fields-RawFits oob bad r) h
    where
      found :
          (m : Result (Unit {0}) Raw)
          → Ensures (RawFits r) m
          → elim m as (λ _. Option Sample) [
            | err _ ↦ none
            | ok raw ↦
                Option.map
                  (stamp now raw.frame_len rate input)
                  (decode_header oob bad raw.protocol raw.header)
          ]
            ≡ some s
          → (36 ≤ length r) × (Bytes r → rate < 2 ^ 32 → Decoded now s)
      found (err _) e q = cc
      found (ok raw) (holds _ f) q =
          elim (Option-cases (decode_header oob bad raw.protocol raw.header)) [
            | inl t ↦ absurd (let z : none ≡ some s = rw t at q in cc)
            | inr (s', t) ↦
                let good = decode_header-Fits raw.protocol raw.header s' t in
                let z : some (stamp now raw.frame_len rate input s') ≡ some s = rw t at q in
                (
                  omega (arith, f.header_room, good.0),
                  λ b k.
                      subst (Decoded now) (some_eq z) (
                        stamp-Decoded now raw.frame_len rate input s' (good.1 (f.header_bytes b))
                          k),
                )
          ]

  decode_records-Good :
      (i now : ℕ) (p : Preamble) (r : List ℕ)
      → Ensures
          (λ l. (44 * length l ≤ length r) × (Bytes r → p.rate < 2 ^ 32 → All (Decoded now) l))
          (decode_records oob bad i now p r)
  unfolding decode_records
  decode_records-Good zero now p r = holds _ (omega arith, λ _ _. tt)
  decode_records-Good (suc i) now p r = >>=-Ensures (frame-Framed oob bad _ _ _ r) (λ f u.
      >>=-Ensures (decode_records-Good i now p f.rest) (λ later v.
        elim (Bool-cases (f.format % 2 ^ 12 == 1)) [
          | inr t ↦ rw t (holds _ (omega (arith, u.room, v.0), λ b k. v.1 ((u.frame_bytes b).1) k))
          | inl t ↦
              rw t
                (elim (Option-cases (decode_raw_header oob bad f.payload now p.rate p.input_if)) [
                  | inl q ↦
                      rw q
                        (holds _ (omega (arith, u.room, v.0), λ b k. v.1 ((u.frame_bytes b).1) k))
                  | inr (s, q) ↦
                      let d = raw_header-Decoded f.payload now p.rate p.input_if s q in
                      rw q (
                        holds _ (
                          omega (arith, u.room, v.0, d.0),
                          λ b k. (d.1 ((u.frame_bytes b).0) k, v.1 ((u.frame_bytes b).1) k),
                        ))
                ])
        ]))

  decode_flow-Good :
      (m : Result Error Preamble) (now : ℕ) (r : List ℕ)
      → Ensures (Kept r) m
      → Ensures (Good now r) (decode_flow oob bad m now)
  unfolding decode_flow
  decode_flow-Good m now r h = >>=-Ensures h (λ p k. >>=-Ensures (word-Word oob _ p.rest) (λ x w.
      Ensures-weaken (decode_records-Good (x.0) now p (x.1)) (λ l g. record {
        few = omega (arith, g.0, w.four, k.within.shorter);
        all_decoded = λ b. g.1 ((w.word_bytes (k.within.still_bytes b)).1) (k.rate_kept b);
      })))

  decode_sample-Good :
      (format : ℕ) (r : List ℕ) (now : ℕ)
      → Ensures (Good now r) (decode_sample oob bad format r now)
  unfolding decode_sample
  decode_sample-Good format r now = elim (Bool-cases (format == 1)) [
    | inl t ↦ rw t (decode_flow-Good (flow_preamble oob r) now r (flow_preamble-Kept oob r))
    | inr t ↦ rw t (elim (Bool-cases (format == 3)) [
      | inl k ↦
          rw k (decode_flow-Good (expanded_preamble oob r) now r (expanded_preamble-Kept oob r))
      | inr k ↦ rw k (holds _ (record { few = omega arith; all_decoded = λ _. tt }))
    ])
  ]

  decode_samples-Good :
      (i now : ℕ) (r : List ℕ) → Ensures (Good now r) (decode_samples oob bad i now r)
  unfolding decode_samples
  decode_samples-Good zero now r = holds _ (record { few = omega arith; all_decoded = λ _. tt })
  decode_samples-Good (suc i) now r = >>=-Ensures (frame-Framed oob bad _ _ _ r) (λ f u.
      >>=-Ensures (decode_sample-Good _ f.payload now) (λ decoded v.
        >>=-Ensures (decode_samples-Good i now f.rest) (λ later w. holds _ (record {
          few = omega (arith, u.room, v.few, w.few, length-append decoded later);
          all_decoded = λ b.
              All-append (Decoded now) decoded later (v.all_decoded ((u.frame_bytes b).0))
                (w.all_decoded ((u.frame_bytes b).1));
        }))))

  decode-Good : (r : List ℕ) (now : ℕ) → Ensures (Good now r) (decode oob bad r now)
  unfolding decode
  decode-Good r now = >>=-Ensures (word-Word oob _ r) (λ a t.
      >>=-Ensures (guard-Ensures (a.0 == 5) _) (λ _ _.
        >>=-Ensures (with_error-Ensures _ (read_agent-Within oob bad (a.1))) (λ b u.
          >>=-Ensures (word-Word oob _ (b.1)) (λ c v. >>=-Ensures (word-Word oob _ (c.1)) (λ d w.
            >>=-Ensures (word-Word oob _ (d.1)) (λ e x. >>=-Ensures (word-Word oob _ (e.1)) (λ f y.
              let all = Within-trans (Within-trans (Word-Within t) u) (
                Within-trans (Within-trans (Word-Within v) (Word-Within w))
                  (Within-trans (Word-Within x) (Word-Within y))) in
              Ensures-weaken (decode_samples-Good (f.0) now (f.1)) (λ l g. record {
                few = omega (arith, g.few, all.shorter);
                all_decoded = λ h. g.all_decoded (all.still_bytes h);
              }))))))))

  -- A datagram gives at most one sample for every 44 of its bytes, whatever counts and lengths it
  -- claims.
  pub decode-length :
      (d : List ℕ) (now : ℕ) (samples : List Sample)
      → decode oob bad d now ≡ ok samples
      → 44 * length samples ≤ length d
  decode-length d now samples h = (ensured (decode-Good d now) samples h).few

  -- Every sample that a datagram of bytes gives is stamped with the time of receipt, has a sampling
  -- rate from 1 to 2^32 - 1, and has fields that fit their types and addresses of its family.
  pub decode-Decoded :
      (d : List ℕ) (now : ℕ) (samples : List Sample)
      → Bytes d
      → decode oob bad d now ≡ ok samples
      → All (Decoded now) samples
  decode-Decoded d now samples b h = (ensured (decode-Good d now) samples h).all_decoded b
