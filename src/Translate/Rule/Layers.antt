-- ===== src/Translate/Rule/Layers.antt =====
-- The transport part of `translate` against the packets that a rule selects, one stage at a time.
use Prim.Native.Nat.{bit_and}
use flowspec_vpp_agent.Prelude.{
  ℕ, ◌%◌, ◌≤◌, ◌<◌, ◌^◌, ◌≡◌, ◌≢◌, ◌⊎◌, ◌↔◌, refl, ◌∙◌, sym, ap, Bool, true, false, not, ◌&&◌, ◌||◌,
  List, [], ◌∷◌, Option, none, some, ◌==◌, arith,
}
use flowspec_vpp_agent.Flowspec.{Family, family_ipv4, family_ipv6, NumericOp, BitmaskOp, Match}
use flowspec_vpp_agent.Semantics.Operators.{ops_hold}
use flowspec_vpp_agent.Semantics.Packets.{icmp_of, tcp, udp}
use flowspec_vpp_agent.Semantics.Rules.{component, bitmask_component, is_ipv6_family}
use flowspec_vpp_agent.Semantics.Entries.{between}
use flowspec_vpp_agent.Translate.Unsupported.{ok, >>=-eq-ok, ok-injective}
use flowspec_vpp_agent.Translate.Exact.{reduce_exact, reduce_exact_lem, reduce_exact_absent}
use flowspec_vpp_agent.Translate.Range.{reduce_range}
use flowspec_vpp_agent.Translate.Range.Sound.{reduce_range_exact}
use flowspec_vpp_agent.Translate.TcpFlags.{reduce_tcp_flags, loop, no_bits}
use flowspec_vpp_agent.Translate.TcpFlags.Sound.{reduce_tcp_flags_exact}
use flowspec_vpp_agent.Translate.Rule.{
  is_present, is_some, infer_tcp, infer_icmp, check_ports, ranges, port_max,
}

-- What a reduced component asks of a field.
abbrev pub exact_test : Option ℕ → ℕ → Bool
exact_test none x = true
exact_test (some v) x = x == v

abbrev pub flags_test : Option (ℕ × ℕ) → ℕ → Bool
flags_test none f = true
flags_test (some (value, mask)) f = bit_and f mask == value

-- The same on a field that is there only at times.
abbrev pub when {ℓ} : {A : Type ℓ} → Option A → Bool → Bool → Bool
when none available test = true
when (some a) available test = available && test

reduce_exact-present : (op : NumericOp) (ops : List NumericOp) → reduce_exact (op ∷ ops) ≢ ok none
unfolding reduce_exact
reduce_exact-present op [] e = ground arith
reduce_exact-present op (op' ∷ ops) e = cc

reduce_tcp_flags-present :
    (op : BitmaskOp) (ops : List BitmaskOp) → reduce_tcp_flags (op ∷ ops) ≢ ok none
unfolding reduce_tcp_flags
reduce_tcp_flags-present op ops e =
    let (b, el, r) = >>=-eq-ok (loop true (op ∷ ops) no_bits) _ e in cc

pub ops_hold-exact :
    (ops : List NumericOp) (o : Option ℕ) (x : ℕ)
    → reduce_exact ops ≡ ok o
    → ops_hold ops x ≡ exact_test o x
ops_hold-exact ops none x e = reduce_exact_absent ops e x
ops_hold-exact ops (some v) x e = (reduce_exact_lem ops v e).1 x

pub component-exact :
    (available : Bool) (ops : List NumericOp) (o : Option ℕ) (x : ℕ)
    → reduce_exact ops ≡ ok o
    → component available ops x ≡ when o available (exact_test o x)
unfolding reduce_exact
component-exact available [] o x e = ground arith
component-exact available (op ∷ ops) none x e = absurd (reduce_exact-present op ops e)
component-exact available (op ∷ ops) (some v) x e =
    ap (λ t. available && t) ((reduce_exact_lem (op ∷ ops) v e).1 x)

pub component-flags :
    (available : Bool) (ops : List BitmaskOp) (o : Option (ℕ × ℕ)) (f : ℕ)
    → f < 2 ^ 8
    → reduce_tcp_flags ops ≡ ok o
    → bitmask_component available ops f ≡ when o available (flags_test o f)
component-flags available [] o f hf e = unfold reduce_tcp_flags in ground arith
component-flags available (op ∷ ops) none f hf e = absurd (reduce_tcp_flags-present op ops e)
component-flags available (op ∷ ops) (some (value, mask)) f hf e =
    ap (λ t. available && t) (sym (reduce_tcp_flags_exact (op ∷ ops) value mask f hf e))

pub component-range :
    (available : Bool) (ops : List NumericOp) (lo hi x : ℕ)
    → x ≤ port_max
    → reduce_range ops port_max ≡ ok (lo, hi)
    → component available ops x ≡ ((not (is_present ops) || available) && between lo hi x)
component-range available [] lo hi x hx e = unfold reduce_range in ground arith
component-range available (op ∷ ops) lo hi x hx e =
    ap (λ t. available && t)
      (sym ((reduce_range_exact (op ∷ ops) port_max lo hi (omega arith) e).2 x hx))

pub infer_tcp_lem :
    (flags : Option (ℕ × ℕ)) (proto proto' : Option ℕ) (x : ℕ) (test : Bool)
    → infer_tcp flags proto ≡ ok proto'
    → (exact_test proto x && when flags (x == tcp) test)
      ≡ (exact_test proto' x && when flags true test)
unfolding infer_tcp
infer_tcp_lem none proto proto' x test e = ground arith
infer_tcp_lem (some flags) none proto' x test e = ground arith
infer_tcp_lem (some flags) (some q) proto' x test e = ground arith

pub infer_icmp_lem :
    (f : Family) (t c proto proto' : Option ℕ) (x : ℕ) (a b : Bool)
    → infer_icmp f (is_some t || is_some c) proto ≡ ok proto'
    → (exact_test proto x
        && (when t (x == icmp_of (is_ipv6_family f)) a
            && when c (x == icmp_of (is_ipv6_family f)) b))
      ≡ (exact_test proto' x && (when t true a && when c true b))
unfolding infer_icmp
infer_icmp_lem f none none proto proto' x a b e = ground arith
infer_icmp_lem family_ipv4 t c none proto' x a b e = ground arith
infer_icmp_lem family_ipv6 t c none proto' x a b e = ground arith
infer_icmp_lem family_ipv4 t c (some q) proto' x a b e = ground arith
infer_icmp_lem family_ipv6 t c (some q) proto' x a b e = ground arith

-- TCP flags leave TCP as the protocol.
pub infer_tcp-some :
    (flags : Option (ℕ × ℕ)) (proto proto' : Option ℕ)
    → infer_tcp flags proto ≡ ok proto'
    → is_some flags ≡ true
    → proto' ≡ some tcp
unfolding infer_tcp
infer_tcp-some none proto proto' e h = cc
infer_tcp-some (some flags) none proto' e h = ground arith
infer_tcp-some (some flags) (some q) proto' e h = ground arith

-- An ICMP component leaves the ICMP of the family.
pub infer_icmp-true :
    (f : Family) (proto proto' : Option ℕ)
    → infer_icmp f true proto ≡ ok proto'
    → proto' ≡ some (icmp_of (is_ipv6_family f))
unfolding infer_icmp
infer_icmp-true family_ipv4 none proto' e = ground arith
infer_icmp-true family_ipv6 none proto' e = ground arith
infer_icmp-true family_ipv4 (some q) proto' e = ground arith
infer_icmp-true family_ipv6 (some q) proto' e = ground arith

-- Ports leave TCP or UDP.
pub check_ports-true :
    (final : Option ℕ) → check_ports true final ≡ ok tt → (final ≡ some tcp) ⊎ (final ≡ some udp)
unfolding check_ports
check_ports-true none e = cc
check_ports-true (some q) e = ground arith

pub reduce_range_absent :
    (ops : List NumericOp) (lo hi : ℕ)
    → reduce_range ops port_max ≡ ok (lo, hi)
    → is_present ops ≡ false
    → (lo ≡ 0) × (hi ≡ port_max)
unfolding reduce_range
reduce_range_absent [] lo hi e h = ground arith
reduce_range_absent (op ∷ ops) lo hi e h = cc

-- ICMP components exclude TCP flags and ports.
pub infer_icmp-flags :
    (f : Family) (flags : Option (ℕ × ℕ)) (given inferred final : Option ℕ)
    → infer_tcp flags given ≡ ok inferred
    → infer_icmp f true inferred ≡ ok final
    → flags ≡ none
unfolding infer_icmp
infer_icmp-flags f none given inferred final e h = refl
infer_icmp-flags family_ipv4 (some v) given inferred final e h =
    let p = infer_tcp-some (some v) given inferred e refl in ground (arith, rw p at h)
infer_icmp-flags family_ipv6 (some v) given inferred final e h =
    let p = infer_tcp-some (some v) given inferred e refl in ground (arith, rw p at h)

pub check_ports-icmp :
    (present v6 : Bool) → check_ports present (some (icmp_of v6)) ≡ ok tt → present ≡ false
unfolding check_ports
check_ports-icmp true true e = cc
check_ports-icmp true false e = cc
check_ports-icmp false v6 e = refl

pub component-absent :
    (available : Bool) (ops : List NumericOp) (x : ℕ)
    → is_present ops ≡ false
    → component available ops x ≡ true
component-absent available [] x h = refl
component-absent available (op ∷ ops) x h = cc

-- The `uint16` conversions lose nothing.
pub ranges-absent :
    (m : Match) (src dst : ℕ × ℕ)
    → ranges m none none ≡ ok (src, dst)
    → (reduce_range m.src_port port_max ≡ ok src) × (reduce_range m.dst_port port_max ≡ ok dst)
unfolding ranges
ranges-absent m src dst e =
    let (s, es, e₁) = >>=-eq-ok (reduce_range m.src_port port_max) _ e in
    let (d, ed, e₂) = >>=-eq-ok (reduce_range m.dst_port port_max) _ e₁ in
    let s_fits = reduce_range_exact m.src_port port_max s.0 s.1 (omega arith) es in
    let d_fits = reduce_range_exact m.dst_port port_max d.0 d.1 (omega arith) ed in
    let lows : (s.0 % 2 ^ 16 ≡ s.0) × (d.0 % 2 ^ 16 ≡ d.0) =
      (omega (arith, s_fits.0, s_fits.1), omega (arith, d_fits.0, d_fits.1)) in
    let highs : (s.1 % 2 ^ 16 ≡ s.1) × (d.1 % 2 ^ 16 ≡ d.1) =
      (omega (arith, s_fits.1), omega (arith, d_fits.1)) in
    let same = ok-injective (rw (lows.0, lows.1, highs.0, highs.1) at e₂) in
    (es ∙ ap (λ r. ok r.0) same, ed ∙ ap (λ r. ok r.1) same)

-- Neither inference makes up the protocol 0, and both leave it alone.
pub infer_tcp-zero :
    (flags : Option (ℕ × ℕ)) (proto proto' : Option ℕ)
    → infer_tcp flags proto ≡ ok proto'
    → (proto ≡ some 0) ↔ (proto' ≡ some 0)
unfolding infer_tcp
infer_tcp-zero none proto proto' e = (λ h. ground arith, λ h. ground arith)
infer_tcp-zero (some v) none proto' e = (λ h. cc, λ h. ground arith)
infer_tcp-zero (some v) (some q) proto' e = (λ h. ground arith, λ h. ground arith)

pub infer_icmp-zero :
    (f : Family) (present : Bool) (proto proto' : Option ℕ)
    → infer_icmp f present proto ≡ ok proto'
    → (proto ≡ some 0) ↔ (proto' ≡ some 0)
unfolding infer_icmp
infer_icmp-zero f false proto proto' e = (λ h. ground arith, λ h. ground arith)
infer_icmp-zero family_ipv4 true none proto' e = (λ h. cc, λ h. ground arith)
infer_icmp-zero family_ipv6 true none proto' e = (λ h. cc, λ h. ground arith)
infer_icmp-zero family_ipv4 true (some q) proto' e = (λ h. ground arith, λ h. ground arith)
infer_icmp-zero family_ipv6 true (some q) proto' e = (λ h. ground arith, λ h. ground arith)
