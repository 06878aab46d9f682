-- ===== src/Bgp/Components.antt =====
-- The components that internal/bgp builds, and what internal/flowspec reads from each.
use flowspec_vpp_agent.Prelude.{
  ℕ, ◌≡◌, ◌∙◌, refl, ap, sym, Bool, true, false, some, List, [], ◌∷◌, map, ◌++◌, inl, inr,
  Bool-cases, arith,
}
use flowspec_vpp_agent.Data.Result.{ok, ◌>>=◌, >>=-cong, >>=_assoc}
use flowspec_vpp_agent.Flowspec.{
  Addr, invalid, ip4, ip6, Prefix, Family, family_ipv4, family_ipv6, NumericOp, BitmaskOp, Match,
  Rule,
}
use flowspec_vpp_agent.Flowspec.Wire.{
  ComponentType, Item, Component, destination_prefix, source_prefix, destination_prefix6,
  source_prefix6, operators, Nlri, ipv4_unicast, ipv6_unicast, Library, Extends, Sealed,
  IsCanonical, Attribute,
}
use flowspec_vpp_agent.Flowspec.Wire
use flowspec_vpp_agent.Flowspec.Parse.{
  numeric_op, numeric_ops, bitmask_op, bitmask_ops, parse_generic_component, parse_component,
  parse_components, parse_prefix, zero_match,
}
use flowspec_vpp_agent.Bgp.Encode.{
  Comps, numeric_item, bitmask_item, prefix_nlri, append_items, append_numeric, append_bitmask,
  destination_part, source_part, append_operators, is_v6,
}

numeric_op-Extends :
    (o : NumericOp) (j : Item)
    → j.value ≡ o.value
    → Extends (numeric_item o).op j.op
    → numeric_op j ≡ o
unfolding numeric_item numeric_op
numeric_op-Extends o j hv e = ground arith

bitmask_op-Extends :
    (o : BitmaskOp) (j : Item)
    → j.value ≡ o.value
    → Extends (bitmask_item o).op j.op
    → bitmask_op j ≡ o
unfolding bitmask_item bitmask_op
bitmask_op-Extends o j hv e = ground arith

numeric_ops-Sealed :
    (ops : List NumericOp) (js : List Item)
    → Sealed (map numeric_item ops) js
    → numeric_ops js ≡ ops
unfolding numeric_ops numeric_item
numeric_ops-Sealed [] [] h = refl
numeric_ops-Sealed (o ∷ ops) [] h = absurd h
numeric_ops-Sealed [] (j ∷ js) h = absurd h
numeric_ops-Sealed (o ∷ ops) (j ∷ js) h =
    cc (numeric_op-Extends o j h.0 h.1, numeric_ops-Sealed ops js h.2)

bitmask_ops-Sealed :
    (ops : List BitmaskOp) (js : List Item)
    → Sealed (map bitmask_item ops) js
    → bitmask_ops js ≡ ops
unfolding bitmask_ops bitmask_item
bitmask_ops-Sealed [] [] h = refl
bitmask_ops-Sealed (o ∷ ops) [] h = absurd h
bitmask_ops-Sealed [] (j ∷ js) h = absurd h
bitmask_ops-Sealed (o ∷ ops) (j ∷ js) h =
    cc (bitmask_op-Extends o j h.0 h.1, bitmask_ops-Sealed ops js h.2)

map_nil : {A B : Type 0} (f : A → B) (l : List A) → map f l ≡ [] → l ≡ []
map_nil f [] h = refl
map_nil f (x ∷ l) h = cc

-- An address of the family.
abbrev pub OfFamily : Family → Addr → Type 0
OfFamily family_ipv4 (ip4 a) = Unit
OfFamily family_ipv6 (ip6 a) = Unit
OfFamily _ _ = ⊥

-- IPv4 has no offset.
abbrev pub OffsetFits : Family → ℕ → Type 0
OffsetFits family_ipv4 offset = offset ≡ 0
OffsetFits family_ipv6 offset = Unit

-- A prefix field of a rule: a canonical prefix of the family, or the zero value where there is none.
abbrev pub PrefixKept : Family → Bool → Prefix → ℕ → Type 0
PrefixKept f true q offset = IsCanonical q × OfFamily f q.addr × OffsetFits f offset
PrefixKept f false q offset = (q ≡ zero_match.dst) × (offset ≡ 0)

-- A rule of the components that the agent originates.
pub record Originated (r : Rule) : Type 0 where
  pub dst_kept : PrefixKept r.family r.match.has_dst r.match.dst r.match.dst_offset
  pub src_kept : PrefixKept r.family r.match.has_src r.match.src r.match.src_offset
  pub no_fragment : r.match.fragment ≡ []
  pub no_generic_port : r.match.has_generic_port ≡ false
  pub no_packet_len : r.match.has_packet_len ≡ false
  pub no_dscp : r.match.has_dscp ≡ false
  pub no_flow_label : r.match.has_flow_label ≡ false
  pub no_label : r.match.has_label ≡ false
  pub no_unknown : r.match.has_unknown_component ≡ false

module _ (lib : Library) where
  prefix_nlri_lem :
      (f : Family) (a : Addr) (bits : ℕ)
      → IsCanonical (record { addr = a; bits = bits })
      → OfFamily f a
      → (p : lib.PrefixNlri) × (prefix_nlri lib (record { addr = a; bits = bits }) (is_v6 lib f)
          ≡ ok p)
        × (lib.parse_prefix p ≡ some (record { addr = a; bits = bits }))
  unfolding prefix_nlri
  prefix_nlri_lem family_ipv4 (ip4 a) bits c h =
      (lib.new_ip_prefix bits (ip4 a), refl, lib.parse_ip_prefix a bits c)
  prefix_nlri_lem family_ipv6 (ip6 a) bits c h =
      (lib.new_ipv6_prefix bits (ip6 a), refl, lib.parse_ipv6_prefix a bits c)
  prefix_nlri_lem family_ipv4 (ip6 a) bits c h = absurd h
  prefix_nlri_lem family_ipv6 (ip4 a) bits c h = absurd h
  prefix_nlri_lem family_ipv4 invalid bits c h = absurd h
  prefix_nlri_lem family_ipv6 invalid bits c h = absurd h

  pub parse_components-append :
      (m : Match) (a b : Comps lib)
      → parse_components lib m (a ++ b)
        ≡ (parse_components lib m a >>= λ m'. parse_components lib m' b)
  unfolding parse_components
  parse_components-append m [] b = refl
  parse_components-append m (c ∷ a) b =
      >>=-cong (parse_component lib m c) refl (λ m' _. parse_components-append m' a b)
      ∙ sym (
          >>=_assoc (parse_component lib m c) (λ m'. parse_components lib m' a)
            (λ m'. parse_components lib m' b))

  append_items_lem :
      (m₀ m m' : Match) (comps : Comps lib) (t : ComponentType) (items : List Item)
      → parse_components lib m₀ comps ≡ ok m
      → (items ≡ [] → m ≡ m')
      → parse_generic_component m t (lib.new_items items) ≡ m'
      → parse_components lib m₀ (append_items lib comps t items) ≡ ok m'
  unfolding append_items parse_components parse_component
  append_items_lem m₀ m m' comps t [] h e g = h ∙ ap ok (e refl)
  append_items_lem m₀ m m' comps t (i ∷ is) h e g =
      parse_components-append m₀ comps (operators t (lib.new_items (i ∷ is)) ∷ []) ∙ rw (h, g) refl

  module _ (m₀ m : Match) (comps : Comps lib) (parsed : parse_components lib m₀ comps ≡ ok m) where
    append_numeric_lem :
        (m' : Match) (t : ComponentType) (ops : List NumericOp)
        → (ops ≡ [] → m ≡ m')
        → ((items : List Item) → numeric_ops items ≡ ops → parse_generic_component m t items ≡ m')
        → parse_components lib m₀ (append_numeric lib comps t ops) ≡ ok m'
    unfolding append_numeric
    append_numeric_lem m' t ops e g =
        append_items_lem m₀ m m' comps t (map numeric_item ops) parsed
          (λ h. e (map_nil numeric_item ops h))
          (g (lib.new_items (map numeric_item ops)) (
            numeric_ops-Sealed ops (lib.new_items (map numeric_item ops))
              (lib.items_sealed (map numeric_item ops))))

    append_bitmask_lem :
        (m' : Match) (t : ComponentType) (ops : List BitmaskOp)
        → (ops ≡ [] → m ≡ m')
        → ((items : List Item) → bitmask_ops items ≡ ops → parse_generic_component m t items ≡ m')
        → parse_components lib m₀ (append_bitmask lib comps t ops) ≡ ok m'
    unfolding append_bitmask
    append_bitmask_lem m' t ops e g =
        append_items_lem m₀ m m' comps t (map bitmask_item ops) parsed
          (λ h. e (map_nil bitmask_item ops h))
          (g (lib.new_items (map bitmask_item ops)) (
            bitmask_ops-Sealed ops (lib.new_items (map bitmask_item ops))
              (lib.items_sealed (map bitmask_item ops))))

  -- The match with the prefixes of another one
  abbrev pub with_prefixes : Match → Match
  with_prefixes m = record zero_match {
    has_dst = m.has_dst;
    dst = m.dst;
    dst_offset = m.dst_offset;
    has_src = m.has_src;
    src = m.src;
    src_offset = m.src_offset;
  }

  pub append_operators_lem :
      (m : Match) (comps : Comps lib)
      → parse_components lib zero_match comps ≡ ok (with_prefixes m)
      → parse_components lib zero_match (append_operators lib comps m)
        ≡ ok (record (with_prefixes m) {
          proto = m.proto;
          dst_port = m.dst_port;
          src_port = m.src_port;
          icmp_type = m.icmp_type;
          icmp_code = m.icmp_code;
          tcp_flags = m.tcp_flags;
        })
  unfolding append_operators parse_generic_component
  append_operators_lem m comps h =
      let m₀ = with_prefixes m in
      let m₁ = record m₀ { proto = m.proto } in
      let m₂ = record m₁ { dst_port = m.dst_port } in
      let m₃ = record m₂ { src_port = m.src_port } in
      let m₄ = record m₃ { icmp_type = m.icmp_type } in
      let m₅ = record m₄ { icmp_code = m.icmp_code } in
      let m₆ = record m₅ { tcp_flags = m.tcp_flags } in
      let h₁ =
        append_numeric_lem zero_match m₀ comps h m₁ Wire.type_ip_proto m.proto (λ e. cc)
          (λ l q. cc) in
      let h₂ =
        append_numeric_lem zero_match m₁ _ h₁ m₂ Wire.type_dst_port m.dst_port (λ e. cc)
          (λ l q. cc) in
      let h₃ =
        append_numeric_lem zero_match m₂ _ h₂ m₃ Wire.type_src_port m.src_port (λ e. cc)
          (λ l q. cc) in
      let h₄ =
        append_numeric_lem zero_match m₃ _ h₃ m₄ Wire.type_icmp_type m.icmp_type (λ e. cc)
          (λ l q. cc) in
      let h₅ =
        append_numeric_lem zero_match m₄ _ h₄ m₅ Wire.type_icmp_code m.icmp_code (λ e. cc)
          (λ l q. cc) in
      append_bitmask_lem zero_match m₅ _ h₅ m₆ Wire.type_tcp_flag m.tcp_flags (λ e. cc) (λ l q. cc)

  pub destination_part_lem :
      (f : Family) (m k : Match)
      → PrefixKept f m.has_dst m.dst m.dst_offset
      → k.dst ≡ zero_match.dst
      → k.dst_offset ≡ 0
      → k.has_dst ≡ false
      → (cs : Comps lib) × (destination_part lib m (is_v6 lib f) ≡ ok cs)
        × (parse_components lib k cs
            ≡ ok (record k { has_dst = m.has_dst; dst = m.dst; dst_offset = m.dst_offset }))
  unfolding destination_part parse_components parse_component parse_prefix
  destination_part_lem family_ipv4 m k h z₁ z₂ z₃ = elim (Bool-cases m.has_dst) [
    | inr t ↦
        let absent : (m.dst ≡ zero_match.dst) × (m.dst_offset ≡ 0) = rw t at h in
        ([], rw t refl, cc)
    | inl t ↦
        let kept : IsCanonical m.dst
            × OfFamily family_ipv4 m.dst.addr
            × OffsetFits family_ipv4 m.dst_offset =
          rw t at h in
        let (p, e, q) = prefix_nlri_lem family_ipv4 m.dst.addr m.dst.bits kept.0 kept.1 in
        (
          destination_prefix p ∷ [],
          rw (t, e) refl,
          rw (q, t) (let zero : m.dst_offset ≡ 0 = kept.2 in cc),
        )
  ]
  destination_part_lem family_ipv6 m k h z₁ z₂ z₃ = elim (Bool-cases m.has_dst) [
    | inr t ↦
        let absent : (m.dst ≡ zero_match.dst) × (m.dst_offset ≡ 0) = rw t at h in
        ([], rw t refl, cc)
    | inl t ↦
        let kept : IsCanonical m.dst
            × OfFamily family_ipv6 m.dst.addr
            × OffsetFits family_ipv6 m.dst_offset =
          rw t at h in
        let (p, e, q) = prefix_nlri_lem family_ipv6 m.dst.addr m.dst.bits kept.0 kept.1 in
        (destination_prefix6 p m.dst_offset ∷ [], rw (t, e) refl, rw (q, t) (refl))
  ]

  pub source_part_lem :
      (f : Family) (m k : Match)
      → PrefixKept f m.has_src m.src m.src_offset
      → k.src ≡ zero_match.src
      → k.src_offset ≡ 0
      → k.has_src ≡ false
      → (cs : Comps lib) × (source_part lib m (is_v6 lib f) ≡ ok cs)
        × (parse_components lib k cs
            ≡ ok (record k { has_src = m.has_src; src = m.src; src_offset = m.src_offset }))
  unfolding source_part parse_components parse_component parse_prefix
  source_part_lem family_ipv4 m k h z₁ z₂ z₃ = elim (Bool-cases m.has_src) [
    | inr t ↦
        let absent : (m.src ≡ zero_match.src) × (m.src_offset ≡ 0) = rw t at h in
        ([], rw t refl, cc)
    | inl t ↦
        let kept : IsCanonical m.src
            × OfFamily family_ipv4 m.src.addr
            × OffsetFits family_ipv4 m.src_offset =
          rw t at h in
        let (p, e, q) = prefix_nlri_lem family_ipv4 m.src.addr m.src.bits kept.0 kept.1 in
        (
          source_prefix p ∷ [],
          rw (t, e) refl,
          rw (q, t) (let zero : m.src_offset ≡ 0 = kept.2 in cc),
        )
  ]
  source_part_lem family_ipv6 m k h z₁ z₂ z₃ = elim (Bool-cases m.has_src) [
    | inr t ↦
        let absent : (m.src ≡ zero_match.src) × (m.src_offset ≡ 0) = rw t at h in
        ([], rw t refl, cc)
    | inl t ↦
        let kept : IsCanonical m.src
            × OfFamily family_ipv6 m.src.addr
            × OffsetFits family_ipv6 m.src_offset =
          rw t at h in
        let (p, e, q) = prefix_nlri_lem family_ipv6 m.src.addr m.src.bits kept.0 kept.1 in
        (source_prefix6 p m.src_offset ∷ [], rw (t, e) refl, rw (q, t) (refl))
  ]
