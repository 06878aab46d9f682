-- ===== src/Translate/Rule/Equivalence.antt =====
-- An accepted rule and its ACL entry select the same packets.
use flowspec_vpp_agent.Prelude.{
  ℕ, ◌<◌, ◌^◌, ◌≡◌, ◌≢◌, refl, ◌∙◌, sym, ap, subst, Bool, true, false, not, ◌&&◌, some,
  if◌then◌else◌, arith,
}
use flowspec_vpp_agent.Flowspec.{
  Family, family_ipv4, family_ipv6, Prefix, Match, Rule, default_prefix, dst_or_default,
  src_or_default,
}
use flowspec_vpp_agent.Semantics.Packets.{Packet, IsWellFormed, width, prefix_contains}
use flowspec_vpp_agent.Semantics.Rules.{
  is_ipv6_family, has_unmodelled, prefix_component, rule_matches,
}
use flowspec_vpp_agent.Semantics.Entries.{entry_matches}
use flowspec_vpp_agent.Vpp.Types.{AclRule}
use flowspec_vpp_agent.Translate.Unsupported.{ok, >>=-eq-ok, ok-injective}
use flowspec_vpp_agent.Translate.Exact.{reduce_proto, reduce_exact_lem}
use flowspec_vpp_agent.Translate.Rule.{
  check_action, check_components, check_offset, check_family, Transport, transport, or_zero, entry,
  translate,
}
use flowspec_vpp_agent.Translate.Rule.Stages.{transport-Stages, transport-proto, transport-exact}

-- What an accepted rule has passed.
pub record Accepted (r : Rule) (e : AclRule) : Type 0 where
  pub t : Transport
  pub components_eq : check_components r.match ≡ ok tt
  pub dst_offset_eq : check_offset r.match.has_dst r.match.dst_offset ≡ ok tt
  pub src_offset_eq : check_offset r.match.has_src r.match.src_offset ≡ ok tt
  pub dst_family_eq :
      check_family r.family r.match.has_dst (dst_or_default r.match r.family) ≡ ok tt
  pub src_family_eq :
      check_family r.family r.match.has_src (src_or_default r.match r.family) ≡ ok tt
  pub transport_eq : transport r.family r.match ≡ ok t
  pub entry_eq :
      entry r.family (src_or_default r.match r.family) (dst_or_default r.match r.family) t ≡ e

pub translate-Accepted : (r : Rule) (e : AclRule) → translate r ≡ ok e → Accepted r e
unfolding translate
translate-Accepted r e h =
    let m = r.match in
    let f = r.family in
    let (u₁, h₁, k₁) = >>=-eq-ok (check_action r.action.kind) _ h in
    let (u₂, h₂, k₂) = >>=-eq-ok (check_components m) _ k₁ in
    let (u₃, h₃, k₃) = >>=-eq-ok (check_offset m.has_dst m.dst_offset) _ k₂ in
    let (u₄, h₄, k₄) = >>=-eq-ok (check_offset m.has_src m.src_offset) _ k₃ in
    let (u₅, h₅, k₅) = >>=-eq-ok (check_family f m.has_dst (dst_or_default m f)) _ k₄ in
    let (u₆, h₆, k₆) = >>=-eq-ok (check_family f m.has_src (src_or_default m f)) _ k₅ in
    let (t, h₇, k₇) = >>=-eq-ok (transport f m) _ k₆ in
    record {
      t = t;
      components_eq = h₂;
      dst_offset_eq = h₃;
      src_offset_eq = h₄;
      dst_family_eq = h₅;
      src_family_eq = h₆;
      transport_eq = h₇;
      entry_eq = ok-injective k₇;
    }

Accepted-modelled : (r : Rule) (e : AclRule) → Accepted r e → has_unmodelled r.match ≡ false
unfolding check_components check_offset
Accepted-modelled r e a = ground (arith, a.components_eq, a.dst_offset_eq, a.src_offset_eq)

-- The default prefix contains every address of its family.
prefix-default :
    (f : Family) (has : Bool) (q : Prefix) (x : ℕ)
    → x < 2 ^ width (is_ipv6_family f)
    → prefix_contains (if has then q else default_prefix f) (is_ipv6_family f) x
      ≡ prefix_component has q (is_ipv6_family f) x
unfolding default_prefix prefix_contains
prefix-default f true q x h = refl
prefix-default family_ipv4 false q x h = ground arith
prefix-default family_ipv6 false q x h = ground arith

prefix_at :
    (f : Family) (has : Bool) (q : Prefix) (x : ℕ) (v : Bool)
    → v ≡ is_ipv6_family f
    → x < 2 ^ width v
    → prefix_contains (if has then q else default_prefix f) v x ≡ prefix_component has q v x
prefix_at f has q x v e h = rw e (prefix-default f has q x (rw e at h))

-- Conjunctions that agree where the family does.
family_agrees : (v p : Bool) → (if v then p else not p) ≡ true → p ≡ v
family_agrees v p h = ground arith

under_family :
    (g d s t d' s' t' u : Bool)
    → (g ≡ true → (d ≡ d') × (s ≡ s') × (t ≡ t') × (u ≡ true))
    → (g && d && s && t) ≡ (g && d' && s' && t' && u)
under_family false d s t d' s' t' u h = refl
under_family true d s t d' s' t' u h = ground (arith, h refl)

entry-proto : (r : Rule) (e : AclRule) (a : Accepted r e) → a.t.proto ≡ some 0 → e.proto ≡ 0
unfolding entry
entry-proto r e a z = sym (ap (λ u. u.proto) a.entry_eq) ∙ ap or_zero z

-- An entry of protocol 0 does not look at the protocol.
any_proto :
    (e : AclRule) (p : Packet) (q : ℕ)
    → e.proto ≡ 0
    → entry_matches e (record p { proto = q }) ≡ entry_matches e p
unfolding entry_matches
any_proto e p q z = simp z

module _ (unmodelled : Match → Packet → Bool) where
  Accepted-exact :
      (r : Rule) (e : AclRule) (p : Packet)
      → (a : Accepted r e) → a.t.proto ≢ some 0
      → IsWellFormed p
      → entry_matches e p ≡ rule_matches unmodelled r p
  unfolding entry_matches rule_matches dst_or_default src_or_default entry
  Accepted-exact r e p a nz w =
      let v6 = is_ipv6_family r.family in
      subst (λ e. entry_matches e p ≡ rule_matches unmodelled r p) a.entry_eq
        (under_family (if v6 then p.is_ipv6 else not p.is_ipv6) _ _ _ _ _ _ _ (λ g.
          let fam = family_agrees v6 p.is_ipv6 g in
          (
            prefix_at r.family r.match.has_dst r.match.dst p.dst p.is_ipv6 fam w.dst_fits,
            prefix_at r.family r.match.has_src r.match.src p.src p.is_ipv6 fam w.src_fits,
            sym (
                transport-exact r.family r.match a.t p w
                  (transport-Stages r.family r.match a.t a.transport_eq) nz),
            rw (Accepted-modelled r e a),
          )))

  -- When `translate` accepts a rule whose protocol component is not reduced to the exact value 0, then
  -- for every well-formed packet the ACL entry selects it exactly when the FlowSpec rule does.
  pub translate-exact :
      (r : Rule) (e : AclRule) (p : Packet)
      → translate r ≡ ok e
      → reduce_proto r.match.proto ≢ ok (some 0)
      → IsWellFormed p
      → entry_matches e p ≡ rule_matches unmodelled r p
  translate-exact r e p h nz w =
      let a = translate-Accepted r e h in
      let s = transport-Stages r.family r.match a.t a.transport_eq in
      Accepted-exact r e p a (λ z. nz ((transport-proto r.family r.match a.t s).1 z)) w

  -- A rule whose protocol component is the exact value 0 selects, once accepted, packets of protocol 0
  -- only, and yet what its ACL entry selects does not depend on the protocol.
  pub translate_proto_zero :
      (r : Rule) (e : AclRule) (p : Packet)
      → translate r ≡ ok e
      → reduce_proto r.match.proto ≡ ok (some 0)
      → (rule_matches unmodelled r p ≡ true → p.proto ≡ 0)
        × ((q : ℕ) → entry_matches e (record p { proto = q }) ≡ entry_matches e p)
  unfolding rule_matches reduce_proto
  translate_proto_zero r e p h z =
      let a = translate-Accepted r e h in
      let s = transport-Stages r.family r.match a.t a.transport_eq in
      let zero : e.proto ≡ 0 = entry-proto r e a ((transport-proto r.family r.match a.t s).0 z) in
      (
        λ m. ground (arith, (reduce_exact_lem r.match.proto 0 z).1 p.proto),
        λ q. any_proto e p q zero,
      )
