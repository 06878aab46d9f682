-- ===== src/Sflow/Fields.antt =====
-- internal/sflow's readers on the words, headers and padding of a datagram that is written out, and the
-- fields that its decoder sets on a sample.
use mathlib.Core.List.{append-nil}
use flowspec_vpp_agent.Prelude.{
  ℕ, zero, suc, ◌+◌, ◌*◌, ◌%◌, ◌^◌, ◌<◌, ◌≡◌, refl, some, List, [], ◌++◌, ltb, ◌==◌, length,
  length-append, if◌then◌else◌, arith, subst,
}
use flowspec_vpp_agent.Data.Bytes.{at, big_endian, drop, drop-append, take-append}
use flowspec_vpp_agent.Data.Result.{ok, require}
use flowspec_vpp_agent.Detector.Sample.{Sample}
use flowspec_vpp_agent.Packet.{clamp_u16}
use flowspec_vpp_agent.Sflow.{word, stamp, if_index_name, decode_header}
use flowspec_vpp_agent.Sflow.Reader.{u32, bytes, skip, left, read_take, pad4}
use flowspec_vpp_agent.Sflow.Framing.{bytes_lem}
use flowspec_vpp_agent.Sflow.Format.{
  quad, zeros, fill, HeaderProtocol, ethernet, ipv4, ipv6, unread, protocol_number, ProtocolFits,
  Interface, unknown_interface, internal_interface, numbered, interface_value, InterfaceFits,
  interface_name, RawRecord, FlowSample, rate_of, decoded, sample_of,
}

length-zeros : (n : ℕ) → length (zeros n) ≡ n
unfolding zeros
length-zeros zero = refl
length-zeros (suc n) = omega (arith, length-zeros n)

pub pad4-eq-fill : (n : ℕ) → pad4 n ≡ fill n
unfolding pad4 fill
pad4-eq-fill zero = omega arith
pad4-eq-fill (suc zero) = omega arith
pad4-eq-fill (suc (suc zero)) = omega arith
pad4-eq-fill (suc (suc (suc zero))) = omega arith
pad4-eq-fill (suc (suc (suc (suc n)))) = omega (arith, pad4-eq-fill n)

pub protocol_number-lt : (p : HeaderProtocol) → ProtocolFits p → protocol_number p < 2 ^ 32
unfolding protocol_number
protocol_number-lt ethernet h = omega arith
protocol_number-lt ipv4 h = omega arith
protocol_number-lt ipv6 h = omega arith
protocol_number-lt (unread n) h = h.0

pub interface_value-lt : (p : Interface) → InterfaceFits p → interface_value p < 2 ^ 32
unfolding interface_value
interface_value-lt unknown_interface h = omega arith
interface_value-lt internal_interface h = omega arith
interface_value-lt (numbered format index) h = omega arith

if_index_name-interface_value :
    (p : Interface) → InterfaceFits p → if_index_name (interface_value p) ≡ interface_name p
unfolding if_index_name interface_value interface_name
if_index_name-interface_value unknown_interface h = refl
if_index_name-interface_value internal_interface h = refl
if_index_name-interface_value (numbered format index) h =
    let v = format * 2 ^ 30 + index in
    let low : v % 2 ^ 30 ≡ index = omega arith in ground (arith, low)

pub decode_header-decoded :
    (oob : ℕ) (bad : List ℕ) (p : HeaderProtocol) (h : List ℕ)
    → ProtocolFits p
    → decode_header oob bad (protocol_number p) h ≡ decoded oob bad p h
unfolding decode_header protocol_number decoded
decode_header-decoded oob bad ethernet h q = refl
decode_header-decoded oob bad ipv4 h q = refl
decode_header-decoded oob bad ipv6 h q = refl
decode_header-decoded oob bad (unread n) h q = ground arith

clamp_u16_lem : (v : ℕ) → clamp_u16 v ≡ (if ltb v 65536 then v else 65535)
unfolding clamp_u16
clamp_u16_lem v = ground arith

rate_lem : (v : ℕ) → (if v == 0 then 1 else v) ≡ rate_of v
unfolding rate_of
rate_lem zero = refl
rate_lem (suc v) = ground arith

pub stamp-sample_of :
    (now : ℕ) (f : FlowSample) (r : RawRecord) (s : Sample)
    → InterfaceFits f.input
    → stamp now r.frame_len f.rate (if_index_name (interface_value f.input)) s ≡ sample_of now f r s
unfolding stamp sample_of
stamp-sample_of now f r s h =
    let len : clamp_u16 r.frame_len ≡ (if ltb r.frame_len 65536 then r.frame_len else 65535) =
      clamp_u16_lem r.frame_len in
    let rate : (if f.rate == 0 then 1 else f.rate) ≡ rate_of f.rate = rate_lem f.rate in
    rw (len, rate, if_index_name-interface_value f.input h) refl

module _ (oob : ℕ) where
  u32-quad : (v : ℕ) (rest : List ℕ) → v < 2 ^ 32 → u32 oob (quad v rest) ≡ some (v, rest)
  unfolding u32 left big_endian at drop
  u32-quad v rest h = ground arith

  pub word-quad :
      {E : Type 0} (e : E) (v : ℕ) (rest : List ℕ)
      → v < 2 ^ 32
      → word oob e (quad v rest) ≡ ok (v, rest)
  word-quad e v rest h = rw (u32-quad v rest h) refl

bytes-append : (bad a b : List ℕ) (n : ℕ) → length a ≡ n → bytes bad n (a ++ b) ≡ some (a, b)
bytes-append bad a b n h =
    rw (bytes_lem bad n (a ++ b) (omega (arith, length-append a b)))
      (rw (take-append a b n h, drop-append a b n h) refl)

pub read_take-append : (bad a b : List ℕ) → read_take bad (length a) (a ++ b) ≡ (a, b)
unfolding read_take
read_take-append bad a b = rw (bytes-append bad a b (length a) refl, read_take) refl

pub bytes-quad :
    {E : Type 0} (bad : List ℕ) (e : E) (v : ℕ) (b : List ℕ)
    → require e (bytes bad 4 (quad v b)) ≡ ok (quad v [], b)
bytes-quad bad e v b = rw (bytes-append bad (quad v []) b 4 refl) refl

pub read_take_all : (bad a : List ℕ) → read_take bad (length a) a ≡ (a, [])
read_take_all bad a =
    subst (λ b. read_take bad (length a) b ≡ (a, [])) (append-nil a) (read_take-append bad a [])

pub skip-zeros : (bad : List ℕ) (n : ℕ) (b : List ℕ) → skip bad n (zeros n ++ b) ≡ some b
unfolding skip
skip-zeros bad n b = rw (bytes-append bad (zeros n) b n (length-zeros n), skip) refl
