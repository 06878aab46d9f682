-- ===== src/Translate/Rule.antt =====
-- internal/translate/translate.go: `Translate`, in the order of its sections.
pub mod Layers
pub mod Stages
pub mod Equivalence
pub mod Blocking
use flowspec_vpp_agent.Prelude.{
  ℕ, Bool, true, false, not, ◌&&◌, ◌||◌, List, [], ◌∷◌, Option, none, some, ◌==◌, if◌then◌else◌,
  ◌%◌, ◌^◌,
}
use flowspec_vpp_agent.Flowspec.{
  Family, family_ipv4, family_ipv6, Prefix, is4, is6, ActionKind, action_drop, Match, Rule,
  dst_or_default, src_or_default,
}
use flowspec_vpp_agent.Translate.Unsupported.{
  Result, ok, unsupported, unsupported_action, unsupported_component, unsupported_expression,
  unmappable_prefix, ◌>>=◌, ◌>>◌,
}
use flowspec_vpp_agent.Translate.Exact.{reduce_exact, reduce_proto}
use flowspec_vpp_agent.Translate.Range.{reduce_range}
use flowspec_vpp_agent.Translate.TcpFlags.{reduce_tcp_flags}
use flowspec_vpp_agent.Vpp.Types.{AclRule}

abbrev pub port_max : ℕ
port_max = 65535

abbrev pub proto_icmp : ℕ
proto_icmp = 1

abbrev pub proto_tcp : ℕ
proto_tcp = 6

abbrev pub proto_udp : ℕ
proto_udp = 17

abbrev pub proto_icmpv6 : ℕ
proto_icmpv6 = 58

abbrev pub is_present {ℓ} : {A : Type ℓ} → List A → Bool
is_present [] = false
is_present (x ∷ xs) = true

abbrev pub is_some {ℓ} : {A : Type ℓ} → Option A → Bool
is_some none = false
is_some (some a) = true

-- Section 1: the action.
unfoldable pub check_action : ActionKind → Result (Unit {0})
check_action action_drop = ok tt
check_action _ = unsupported unsupported_action

-- Section 2: components that are rejected by their presence.
unfoldable pub check_components : Match → Result (Unit {0})
check_components m =
    if m.has_generic_port
    then unsupported unsupported_component
    else if m.has_packet_len
    then unsupported unsupported_component
    else if m.has_dscp
    then unsupported unsupported_component
    else if m.has_flow_label
    then unsupported unsupported_component
    else if m.has_label
    then unsupported unsupported_component
    else if m.has_unknown_component
    then unsupported unsupported_component
    else if is_present m.fragment
    then unsupported unsupported_component
    else ok tt

-- Section 3: prefix offsets and families.
unfoldable pub check_offset : Bool → ℕ → Result (Unit {0})
check_offset has offset = if has && not (offset == 0) then unsupported unmappable_prefix else ok tt

unfoldable pub check_family : Family → Bool → Prefix → Result (Unit {0})
check_family f false q = ok tt
check_family family_ipv6 true q = if not (is6 q.addr) then unsupported unmappable_prefix else ok tt
check_family family_ipv4 true q = if not (is4 q.addr) then unsupported unmappable_prefix else ok tt

-- Section 5: TCP flags imply TCP. A protocol is `none` while absent.
unfoldable pub infer_tcp : Option (ℕ × ℕ) → Option ℕ → Result (Option ℕ)
infer_tcp none proto = ok proto
infer_tcp (some flags) none = ok (some proto_tcp)
infer_tcp (some flags) (some proto) =
    if proto == proto_tcp then ok (some proto) else unsupported unsupported_expression

abbrev pub want_icmp : Family → ℕ
want_icmp family_ipv6 = proto_icmpv6
want_icmp family_ipv4 = proto_icmp

-- Section 6: an ICMP type or code implies the ICMP of the family.
unfoldable pub infer_icmp : Family → Bool → Option ℕ → Result (Option ℕ)
infer_icmp f false proto = ok proto
infer_icmp f true none = ok (some (want_icmp f))
infer_icmp f true (some proto) =
    if proto == want_icmp f then ok (some proto) else unsupported unsupported_expression

-- Ports need TCP or UDP.
unfoldable pub check_ports : Bool → Option ℕ → Result (Unit {0})
check_ports false proto = ok tt
check_ports true none = unsupported unsupported_expression
check_ports true (some proto) =
    if not (proto == proto_tcp) && not (proto == proto_udp)
    then unsupported unsupported_expression
    else ok tt

-- `icmpRange`
unfoldable pub icmp_range : Option ℕ → ℕ × ℕ
icmp_range (some v) = (v, v)
icmp_range none = (0, 255)

-- The two ranges of the entry.
unfoldable pub ranges : Match → Option ℕ → Option ℕ → Result ((ℕ × ℕ) × (ℕ × ℕ))
ranges m icmp_type icmp_code =
    if is_some icmp_type || is_some icmp_code
    then ok (icmp_range icmp_type, icmp_range icmp_code)
    else (do
      (s_lo, s_hi) ← reduce_range m.src_port port_max
      (d_lo, d_hi) ← reduce_range m.dst_port port_max
      ok ((s_lo % 2 ^ 16, s_hi % 2 ^ 16), (d_lo % 2 ^ 16, d_hi % 2 ^ 16)))

-- What sections 4 to 6 find out.
pub record Transport : Type 0 where
  pub proto : Option ℕ
  pub tcp_flags : Option (ℕ × ℕ)
  pub src_range : ℕ × ℕ
  pub dst_range : ℕ × ℕ

unfoldable pub transport : Family → Match → Result Transport
transport f m = do
  given ← reduce_proto m.proto
  flags ← reduce_tcp_flags m.tcp_flags
  proto ← infer_tcp flags given
  icmp_type ← reduce_exact m.icmp_type
  icmp_code ← reduce_exact m.icmp_code
  final ← infer_icmp f (is_some icmp_type || is_some icmp_code) proto
  check_ports (is_present m.src_port || is_present m.dst_port) final
  (src_range, dst_range) ← ranges m icmp_type icmp_code
  ok (record { proto = final; tcp_flags = flags; src_range = src_range; dst_range = dst_range })

abbrev or_zero : Option ℕ → ℕ
or_zero none = 0
or_zero (some v) = v

abbrev flags_value : Option (ℕ × ℕ) → ℕ
flags_value none = 0
flags_value (some (value, mask)) = value

abbrev flags_mask : Option (ℕ × ℕ) → ℕ
flags_mask none = 0
flags_mask (some (value, mask)) = mask

abbrev is_family_ipv6 : Family → Bool
is_family_ipv6 family_ipv6 = true
is_family_ipv6 family_ipv4 = false

-- The entry that is put together at the end.
unfoldable pub entry : Family → Prefix → Prefix → Transport → AclRule
entry f src dst t = record {
  is_ipv6 = is_family_ipv6 f;
  permit = false;
  src = src;
  dst = dst;
  proto = or_zero t.proto;
  src_port_or_icmp_type_first = t.src_range.0;
  src_port_or_icmp_type_last = t.src_range.1;
  dst_port_or_icmp_code_first = t.dst_range.0;
  dst_port_or_icmp_code_last = t.dst_range.1;
  tcp_flags_mask = flags_mask t.tcp_flags;
  tcp_flags_value = flags_value t.tcp_flags;
}

-- `Translate`
unfoldable pub translate : Rule → Result AclRule
translate r = do
  check_action r.action.kind
  check_components r.match
  check_offset r.match.has_dst r.match.dst_offset
  check_offset r.match.has_src r.match.src_offset
  let dst = dst_or_default r.match r.family
  let src = src_or_default r.match r.family
  check_family r.family r.match.has_dst dst
  check_family r.family r.match.has_src src
  t ← transport r.family r.match
  ok (entry r.family src dst t)
