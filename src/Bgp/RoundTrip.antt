-- ===== src/Bgp/RoundTrip.antt =====
-- internal/bgp's encoder against internal/flowspec's parser.
use Prim.Native.String.{String}
use flowspec_vpp_agent.Prelude.{◌≡◌, ◌∙◌, ◌⊎◌, refl, ap, sym, List, [], ◌∷◌, ◌++◌, inl, inr}
use flowspec_vpp_agent.Data.Result.{ok, err, ok_eq}
use flowspec_vpp_agent.Flowspec.{Family, family_ipv4, family_ipv6, Match, Rule}
use flowspec_vpp_agent.Flowspec.Wire.{
  Component, Nlri, ipv4_unicast, ipv6_unicast, Library, Attribute,
}
use flowspec_vpp_agent.Flowspec.Parse.{
  parse_components, parse_family, parse_nlri, zero_match, parse_action,
}
use flowspec_vpp_agent.Bgp.Encode.{
  no_components, Comps, append_operators, to_nlri, encode_nlri, is_v6,
}
use flowspec_vpp_agent.Bgp.Components.{
  Originated, parse_components-append, destination_part_lem, source_part_lem, append_operators_lem,
  with_prefixes,
}

module _ (lib : Library) where
  -- The components that `encodeNLRI` collects read back as the rule's match.
  components :
      (r : Rule)
      → Originated r
      → (cs : Comps lib) × (encode_nlri lib r ≡ to_nlri lib (is_v6 lib r.family) cs)
        × (parse_components lib zero_match cs ≡ ok r.match)
  unfolding encode_nlri
  components r o =
      let m = r.match in
      let m₁ : Match = record zero_match {
        has_dst = m.has_dst;
        dst = m.dst;
        dst_offset = m.dst_offset;
      } in
      let (ds, ed, pd) = destination_part_lem lib r.family m zero_match o.dst_kept refl refl refl in
      let (ss, es, ps) = source_part_lem lib r.family m m₁ o.src_kept refl refl refl in
      let prefixes : parse_components lib zero_match (ds ++ ss) ≡ ok (with_prefixes lib m) =
        parse_components-append lib zero_match ds ss ∙ rw pd ps in
      (
        append_operators lib (ds ++ ss) m,
        rw (ed, es) refl,
        append_operators_lem lib m (ds ++ ss) prefixes
            ∙ ap ok (
                cc (
                  o.no_fragment, o.no_generic_port, o.no_packet_len, o.no_dscp, o.no_flow_label,
                  o.no_label, o.no_unknown,
                )),
      )

  read_back :
      (f : Family) (m : Match) (raw : String) (attrs : List Attribute)
      (c : Component lib.PrefixNlri) (cs : Comps lib)
      → parse_components lib zero_match (c ∷ cs) ≡ ok m
      → (n : Nlri lib.PrefixNlri) × (to_nlri lib (is_v6 lib f) (c ∷ cs) ≡ ok n)
        × (parse_nlri lib raw n attrs
            ≡ ok (record { family = f; match = m; action = parse_action attrs; raw = raw }))
  unfolding to_nlri parse_nlri parse_family
  read_back family_ipv4 m raw attrs c cs p = (ipv4_unicast (c ∷ cs), refl, rw p refl)
  read_back family_ipv6 m raw attrs c cs p = (ipv6_unicast (c ∷ cs), refl, rw p refl)

  built :
      (r : Rule) (raw : String) (attrs : List Attribute) (cs : Comps lib)
      → encode_nlri lib r ≡ to_nlri lib (is_v6 lib r.family) cs
      → parse_components lib zero_match cs ≡ ok r.match
      → ((encode_nlri lib r ≡ err no_components) × (r.match ≡ zero_match))
        ⊎ ((n : Nlri lib.PrefixNlri) × (encode_nlri lib r ≡ ok n)
            × (parse_nlri lib raw n attrs
                ≡ ok (record {
                  family = r.family;
                  match = r.match;
                  action = parse_action attrs;
                  raw = raw;
                })))
  unfolding to_nlri parse_components
  built r raw attrs [] e p = inl (e, sym (ok_eq p))
  built r raw attrs (c ∷ cs) e p =
      let (n, q, z) = read_back r.family r.match raw attrs c cs p in inr (n, e ∙ q, z)

  -- A rule of the components that the agent originates, with canonical prefixes of its family, either
  -- has no component at all and is refused, or it encodes to a route that parses to the same family
  -- and the same match, every operator and value of it included, with the action that the attributes
  -- of the route say.
  pub encode_nlri-parse :
      (r : Rule) (raw : String) (attrs : List Attribute)
      → Originated r
      → ((encode_nlri lib r ≡ err no_components) × (r.match ≡ zero_match))
        ⊎ ((n : Nlri lib.PrefixNlri) × (encode_nlri lib r ≡ ok n)
            × (parse_nlri lib raw n attrs
                ≡ ok (record {
                  family = r.family;
                  match = r.match;
                  action = parse_action attrs;
                  raw = raw;
                })))
  encode_nlri-parse r raw attrs o = let (cs, e, p) = components r o in built r raw attrs cs e p
