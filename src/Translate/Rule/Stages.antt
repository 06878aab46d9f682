-- ===== src/Translate/Rule/Stages.antt =====
-- What the stages of `transport` find out, and that the transport fields of the entry select the
-- packets that the rule's transport components select.
use Prim.Native.Nat.{bit_and}
use flowspec_vpp_agent.Prelude.{
  ℕ, ◌≡◌, ◌≢◌, ◌↔◌, refl, ◌∙◌, sym, ap, ap₂, subst, Bool, true, false, not, ◌&&◌, ◌||◌, Option,
  none, some, ◌==◌, if◌then◌else◌, Bool-cases, inl, inr, arith, ◌⊎◌,
}
use flowspec_vpp_agent.Data.Bits.{bit_and-zero}
use flowspec_vpp_agent.Flowspec.{Family, Match}
use flowspec_vpp_agent.Semantics.Packets.{
  Packet, IsWellFormed, has_ports, icmp_of, tcp, udp, icmp, icmpv6,
}
use flowspec_vpp_agent.Semantics.Rules.{component, is_ipv6_family, transport_matches}
use flowspec_vpp_agent.Semantics.Entries.{between}
use flowspec_vpp_agent.Translate.Unsupported.{ok, >>=-eq-ok, ok-injective}
use flowspec_vpp_agent.Translate.Exact.{reduce_exact, reduce_proto}
use flowspec_vpp_agent.Translate.TcpFlags.{reduce_tcp_flags}
use flowspec_vpp_agent.Translate.Range.{reduce_range}
use flowspec_vpp_agent.Translate.Rule.{
  is_present, is_some, infer_tcp, infer_icmp, check_ports, icmp_range, ranges, port_max, Transport,
  transport, or_zero, flags_value, flags_mask,
}
use flowspec_vpp_agent.Translate.Rule.Layers.{
  exact_test, flags_test, when, ops_hold-exact, component-exact, component-flags, component-range,
  infer_tcp_lem, infer_tcp-zero, infer_icmp-zero, infer_icmp_lem, infer_tcp-some, infer_icmp-true,
  infer_icmp-flags, component-absent, check_ports-icmp, check_ports-true, reduce_range_absent,
  ranges-absent,
}

-- The transport fields of an entry, written out.
abbrev pub fields : ℕ → ℕ → ℕ → ℕ → Option (ℕ × ℕ) → Packet → Bool
fields sl sh dl dh flags p =
    if has_ports p.proto
    then between sl sh p.src_port
      && between dl dh p.dst_port
      && (not (p.proto == tcp) || bit_and p.tcp_flags (flags_mask flags) == flags_value flags)
    else if p.proto == icmp || p.proto == icmpv6
    then between sl sh p.icmp_type && between dl dh p.icmp_code
    else true

-- Without ICMP components.
ports_case :
    (final : Option ℕ) (flags : Option (ℕ × ℕ)) (ps pd : Bool) (sl sh dl dh : ℕ) (p : Packet)
    → IsWellFormed p
    → final ≢ some 0
    → (is_some flags ≡ true → final ≡ some tcp)
    → ((ps || pd) ≡ true → (final ≡ some tcp) ⊎ (final ≡ some udp))
    → (ps ≡ false → (sl ≡ 0) × (sh ≡ port_max))
    → (pd ≡ false → (dl ≡ 0) × (dh ≡ port_max))
    → (exact_test final p.proto
        && when flags true (flags_test flags p.tcp_flags)
        && ((not ps || has_ports p.proto) && between sl sh p.src_port)
        && ((not pd || has_ports p.proto) && between dl dh p.dst_port))
      ≡ (or_zero final == 0 || (or_zero final == p.proto && fields sl sh dl dh flags p))
ports_case none none ps pd sl sh dl dh p w nz hf hp hs hd = ground arith
ports_case none (some flags) ps pd sl sh dl dh p w nz hf hp hs hd = ground arith
ports_case (some q) none ps pd sl sh dl dh p w nz hf hp hs hd =
    ground (arith, bit_and-zero 8 p.tcp_flags w.tcp_flags_fits)
ports_case (some q) (some flags) ps pd sl sh dl dh p w nz hf hp hs hd = ground arith

-- With ICMP components.
icmp_case :
    (v6 : Bool) (t c : Option ℕ) (p : Packet)
    → IsWellFormed p
    → (exact_test (some (icmp_of v6)) p.proto
        && (when t true (exact_test t p.icmp_type) && when c true (exact_test c p.icmp_code)))
      ≡ (icmp_of v6 == 0
          || (icmp_of v6 == p.proto
              && fields (icmp_range t).0 (icmp_range t).1 (icmp_range c).0 (icmp_range c).1 none p))
unfolding icmp_range
icmp_case v6 none none p w = ground arith
icmp_case v6 (some t) none p w = ground arith
icmp_case v6 none (some c) p w = ground arith
icmp_case v6 (some t) (some c) p w = ground arith

-- What the successful stages of `transport` say.
pub record Stages (f : Family) (m : Match) (t : Transport) : Type 0 where
  pub given : Option ℕ
  pub inferred : Option ℕ
  pub icmp_type : Option ℕ
  pub icmp_code : Option ℕ
  pub given_eq : reduce_exact m.proto ≡ ok given
  pub flags_eq : reduce_tcp_flags m.tcp_flags ≡ ok t.tcp_flags
  pub inferred_eq : infer_tcp t.tcp_flags given ≡ ok inferred
  pub type_eq : reduce_exact m.icmp_type ≡ ok icmp_type
  pub code_eq : reduce_exact m.icmp_code ≡ ok icmp_code
  pub final_eq : infer_icmp f (is_some icmp_type || is_some icmp_code) inferred ≡ ok t.proto
  pub ports_eq : check_ports (is_present m.src_port || is_present m.dst_port) t.proto ≡ ok tt
  pub ranges_eq : ranges m icmp_type icmp_code ≡ ok (t.src_range, t.dst_range)

pub transport-Stages :
    (f : Family) (m : Match) (t : Transport) → transport f m ≡ ok t → Stages f m t
unfolding transport reduce_proto
transport-Stages f m t e =
    let (given, eg, e₁) = >>=-eq-ok (reduce_proto m.proto) _ e in
    let (flags, ef, e₂) = >>=-eq-ok (reduce_tcp_flags m.tcp_flags) _ e₁ in
    let (inferred, ei, e₃) = >>=-eq-ok (infer_tcp flags given) _ e₂ in
    let (ty, et, e₄) = >>=-eq-ok (reduce_exact m.icmp_type) _ e₃ in
    let (co, ec, e₅) = >>=-eq-ok (reduce_exact m.icmp_code) _ e₄ in
    let (final, el, e₆) = >>=-eq-ok (infer_icmp f (is_some ty || is_some co) inferred) _ e₅ in
    let (u, ep, e₇) =
      >>=-eq-ok (check_ports (is_present m.src_port || is_present m.dst_port) final) _ e₆ in
    let (rs, er, e₈) = >>=-eq-ok (ranges m ty co) _ e₇ in
    subst (Stages f m) (ok-injective e₈) (record {
      given = given;
      inferred = inferred;
      icmp_type = ty;
      icmp_code = co;
      given_eq = eg;
      flags_eq = ef;
      inferred_eq = ei;
      type_eq = et;
      code_eq = ec;
      final_eq = el;
      ports_eq = ep;
      ranges_eq = er;
    })

regroup :
    (a b c d r q i b' g c' d' : Bool)
    → (a && b) ≡ (i && b')
    → (i && (c && d)) ≡ (g && (c' && d'))
    → (a && b && c && d && r && q) ≡ ((g && (c' && d')) && b' && (r && q))
regroup a b c d r q i b' g c' d' h k = ground arith

tail_true : (a : Bool) → (a && true && true) ≡ a
tail_true a = ground arith

none_of : (o : Option ℕ) → is_some o ≡ false → o ≡ none
none_of none h = refl
none_of (some v) h = cc

flatten : (e g a b : Bool) → ((e && (true && true)) && g && (a && b)) ≡ (e && g && a && b)
flatten e g a b = ground arith

module _ (f : Family) (m : Match) (t : Transport) (p : Packet) (w : IsWellFormed p) where
  ports_match : Bool
  ports_match =
      component (has_ports p.proto) m.src_port p.src_port
      && component (has_ports p.proto) m.dst_port p.dst_port

  -- The components on the protocol, the flags, the type and the code, after the inferences.
  transport_regrouped :
      (s : Stages f m t)
      → transport_matches (is_ipv6_family f) m p ≡ (
          (exact_test t.proto p.proto
            && (when s.icmp_type true (exact_test s.icmp_type p.icmp_type)
                && when s.icmp_code true (exact_test s.icmp_code p.icmp_code)))
          && when t.tcp_flags true (flags_test t.tcp_flags p.tcp_flags)
          && ports_match)
  unfolding transport_matches ports_match
  transport_regrouped s =
      rw
        (
          ops_hold-exact m.proto s.given p.proto s.given_eq,
          component-flags (p.proto == tcp) m.tcp_flags t.tcp_flags p.tcp_flags w.tcp_flags_fits
              s.flags_eq,
          component-exact (p.proto == icmp_of v6) m.icmp_type s.icmp_type p.icmp_type s.type_eq,
          component-exact (p.proto == icmp_of v6) m.icmp_code s.icmp_code p.icmp_code s.code_eq,
        )
        (regroup (exact_test s.given p.proto) (when t.tcp_flags (p.proto == tcp) flags)
          (when s.icmp_type (p.proto == icmp_of v6) ty)
          (when s.icmp_code (p.proto == icmp_of v6) co)
          (component (has_ports p.proto) m.src_port p.src_port)
          (component (has_ports p.proto) m.dst_port p.dst_port) (exact_test s.inferred p.proto)
          (when t.tcp_flags true flags) (exact_test t.proto p.proto) (when s.icmp_type true ty)
          (when s.icmp_code true co)
          (infer_tcp_lem t.tcp_flags s.given s.inferred p.proto flags s.inferred_eq)
          (infer_icmp_lem f s.icmp_type s.icmp_code s.inferred t.proto p.proto ty co s.final_eq))
    where
      v6 : Bool
      v6 = is_ipv6_family f

      flags : Bool
      flags = flags_test t.tcp_flags p.tcp_flags

      ty : Bool
      ty = exact_test s.icmp_type p.icmp_type

      co : Bool
      co = exact_test s.icmp_code p.icmp_code

  abbrev pub test : Option ℕ → ℕ × ℕ → ℕ × ℕ → Option (ℕ × ℕ) → Bool
  test proto src dst flags =
      or_zero proto == 0 || (or_zero proto == p.proto && fields src.0 src.1 dst.0 dst.1 flags p)

  abbrev pub entry_test : Transport → Bool
  entry_test u = test u.proto u.src_range u.dst_range u.tcp_flags

  ports_in_ranges :
      reduce_range m.src_port port_max ≡ ok t.src_range
      → reduce_range m.dst_port port_max ≡ ok t.dst_range
      → ports_match ≡ (
          ((not (is_present m.src_port) || has_ports p.proto)
            && between t.src_range.0 t.src_range.1 p.src_port)
          && ((not (is_present m.dst_port) || has_ports p.proto)
              && between t.dst_range.0 t.dst_range.1 p.dst_port))
  unfolding ports_match
  ports_in_ranges es ed =
      ap₂ (λ a b. a && b)
        (component-range (has_ports p.proto) m.src_port t.src_range.0 t.src_range.1 p.src_port
          w.src_port_fits es)
        (component-range (has_ports p.proto) m.dst_port t.dst_range.0 t.dst_range.1 p.dst_port
          w.dst_port_fits ed)

  transport-ports :
      (s : Stages f m t)
      → t.proto ≢ some 0
      → s.icmp_type ≡ none
      → s.icmp_code ≡ none
      → transport_matches (is_ipv6_family f) m p ≡ entry_test t
  unfolding infer_icmp
  transport-ports s nz et ec =
      let (es, ed) = ranges-absent m t.src_range t.dst_range (rw (et, ec) at s.ranges_eq) in
      let same : s.inferred ≡ t.proto = ok-injective (rw (et, ec) at s.final_eq) in
      transport_regrouped s
      ∙ rw (et, ec, ports_in_ranges es ed)
          (flatten (exact_test t.proto p.proto)
              (when t.tcp_flags true (flags_test t.tcp_flags p.tcp_flags)) _ _
            ∙ ports_case t.proto t.tcp_flags (is_present m.src_port) (is_present m.dst_port)
                t.src_range.0 t.src_range.1 t.dst_range.0 t.dst_range.1 p w nz
                (λ h. sym same ∙ infer_tcp-some t.tcp_flags s.given s.inferred s.inferred_eq h)
                (λ h. check_ports-true t.proto (rw h at s.ports_eq))
                (reduce_range_absent m.src_port t.src_range.0 t.src_range.1 es)
                (reduce_range_absent m.dst_port t.dst_range.0 t.dst_range.1 ed))

  abbrev icmp_test : Stages f m t → Bool
  icmp_test s =
      when s.icmp_type true (exact_test s.icmp_type p.icmp_type)
      && when s.icmp_code true (exact_test s.icmp_code p.icmp_code)

  ports_match-absent : (is_present m.src_port || is_present m.dst_port) ≡ false → ports_match ≡ true
  unfolding ports_match
  ports_match-absent h = rw (
    component-absent (has_ports p.proto) m.src_port p.src_port (ground arith),
    component-absent (has_ports p.proto) m.dst_port p.dst_port (ground arith),
  )

  transport-icmp :
      (s : Stages f m t)
      → (is_some s.icmp_type || is_some s.icmp_code) ≡ true
      → transport_matches (is_ipv6_family f) m p ≡ entry_test t
  unfolding ranges
  transport-icmp s h =
      let v6 = is_ipv6_family f in
      let inferred = rw h at s.final_eq in
      let final : t.proto ≡ some (icmp_of v6) = infer_icmp-true f s.inferred t.proto inferred in
      let no_flags =
        infer_icmp-flags f t.tcp_flags s.given s.inferred t.proto s.inferred_eq inferred in
      let ports_eq : check_ports (is_present m.src_port || is_present m.dst_port)
            (some (icmp_of v6))
          ≡ ok tt =
        subst (λ o. check_ports (is_present m.src_port || is_present m.dst_port) o ≡ ok tt) final
          s.ports_eq in
      let no_ports =
        check_ports-icmp (is_present m.src_port || is_present m.dst_port) v6 ports_eq in
      let shape : (icmp_range s.icmp_type, icmp_range s.icmp_code) ≡ (t.src_range, t.dst_range) =
        ok-injective (rw h at s.ranges_eq) in
      transport_regrouped s
      ∙ ap
          (λ q.
            (exact_test t.proto p.proto && icmp_test s)
            && when t.tcp_flags true (flags_test t.tcp_flags p.tcp_flags)
            && q)
          (ports_match-absent no_ports)
      ∙ ap₂
          (λ a b.
            (exact_test a p.proto && icmp_test s) && when b true (flags_test b p.tcp_flags) && true)
          final no_flags
      ∙ tail_true (exact_test (some (icmp_of v6)) p.proto && icmp_test s)
      ∙ icmp_case v6 s.icmp_type s.icmp_code p w
      ∙ ap₂ (λ a b. test a (icmp_range s.icmp_type) (icmp_range s.icmp_code) b) (sym final)
          (sym no_flags)
      ∙ ap (λ r. test t.proto r.0 r.1 t.tcp_flags) shape

  -- Unless the protocol is the exact value 0.
  pub transport-exact :
      Stages f m t → t.proto ≢ some 0 → transport_matches (is_ipv6_family f) m p ≡ entry_test t
  transport-exact s nz = elim (Bool-cases (is_some s.icmp_type || is_some s.icmp_code)) [
    | inl h ↦ transport-icmp s h
    | inr h ↦
        transport-ports s nz (none_of s.icmp_type (ground arith))
          (none_of s.icmp_code (ground arith))
  ]

-- No inference makes up the protocol 0, or drops it.
pub transport-proto :
    (f : Family) (m : Match) (t : Transport)
    → Stages f m t
    → (reduce_proto m.proto ≡ ok (some 0)) ↔ (t.proto ≡ some 0)
unfolding reduce_proto
transport-proto f m t s =
    let tcp_iff = infer_tcp-zero t.tcp_flags s.given s.inferred s.inferred_eq in
    let icmp_iff =
      infer_icmp-zero f (is_some s.icmp_type || is_some s.icmp_code) s.inferred t.proto
        s.final_eq in
    (
      λ h. icmp_iff.0 (tcp_iff.0 (ok-injective (sym s.given_eq ∙ h))),
      λ z. s.given_eq ∙ ap (λ o. ok o) (tcp_iff.1 (icmp_iff.1 z)),
    )
