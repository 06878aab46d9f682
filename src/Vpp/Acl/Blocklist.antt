-- ===== src/Vpp/Acl/Blocklist.antt =====
-- A list of rules that VPP walks, first match first, as `build_acl_rules` fills it.
use Prim.Native.Nat.{bit_and}
use flowspec_vpp_agent.Prelude.{
  ℕ, ◌≡◌, refl, ◌∙◌, sym, subst, Bool, true, false, not, ◌&&◌, ◌||◌, List, [], ◌∷◌, ◌++◌, Option,
  some, some_eq, Option-cases, Bool-cases, inl, inr, if◌then◌else◌, All, append_assoc, ◌==◌, arith,
}
use flowspec_vpp_agent.Flowspec.{Prefix, Addr, ip4, ip6, invalid}
use flowspec_vpp_agent.Semantics.Packets.{
  Packet, IsWellFormed, has_ports, tcp, icmp, icmpv6, prefix_contains, addr_contains,
}
use flowspec_vpp_agent.Semantics.Entries.{entry_matches, fields_match, between}
use flowspec_vpp_agent.Vpp.Types.{AclFamily, acl_ipv4, acl_ipv6, AclRule}
use flowspec_vpp_agent.Vpp.Acl.{
  BinRule, bin_rule, is_acl_ipv6, permit_any, to_binapi_rule, build_from, build_acl_rules,
}

abbrev pub addr_of_family : Bool → Addr → Bool
addr_of_family v6 invalid = false
addr_of_family v6 (ip4 _) = not v6
addr_of_family v6 (ip6 _) = v6

-- The prefix is of the family.
abbrev pub of_family : Bool → Prefix → Bool
of_family v6 q = addr_of_family v6 q.addr

-- A deny entry of the family, its prefixes too.
pub record IsBlock (v6 : Bool) (r : AclRule) : Type 0 where
  pub family : r.is_ipv6 ≡ v6
  pub denies : r.permit ≡ false
  pub dst_family : of_family v6 r.dst ≡ true
  pub src_family : of_family v6 r.src ≡ true

abbrev pub any_matches : List AclRule → Packet → Bool
any_matches [] p = false
any_matches (r ∷ rules) p = entry_matches r p || any_matches rules p

module _ {P : Type 0} (contains : P → Bool → ℕ → Bool) where
  -- As `fields_match` and `entry_matches`, on the rule of the binary API, whose prefixes alone tell its family.
  bin_fields_match : BinRule P → Packet → Bool
  bin_fields_match b p =
      if has_ports p.proto
      then between b.srcport_or_icmptype_first b.srcport_or_icmptype_last p.src_port
        && between b.dstport_or_icmpcode_first b.dstport_or_icmpcode_last p.dst_port
        && (not (p.proto == tcp) || bit_and p.tcp_flags b.tcp_flags_mask == b.tcp_flags_value)
      else if p.proto == icmp || p.proto == icmpv6
      then between b.srcport_or_icmptype_first b.srcport_or_icmptype_last p.icmp_type
        && between b.dstport_or_icmpcode_first b.dstport_or_icmpcode_last p.icmp_code
      else true

  unfoldable pub bin_matches : BinRule P → Packet → Bool
  unfolding bin_fields_match
  bin_matches b p =
      contains b.dst p.is_ipv6 p.dst
      && contains b.src p.is_ipv6 p.src
      && (b.proto == 0 || (b.proto == p.proto && bin_fields_match b p))

  -- Whether the lists of one direction let a packet pass: the first match decides, and no match denies.
  unfoldable pub permits : List (BinRule P) → Packet → Bool
  permits [] p = false
  permits (b ∷ bs) p = if bin_matches b p then b.is_permit else permits bs p

  abbrev any_bin : List (BinRule P) → Packet → Bool
  any_bin [] p = false
  any_bin (b ∷ bs) p = bin_matches b p || any_bin bs p

  permits-append :
      (bs cs : List (BinRule P)) (p : Packet)
      → permits (bs ++ cs) p ≡ (if any_bin bs p then permits bs p else permits cs p)
  unfolding permits
  permits-append [] cs p = refl
  permits-append (b ∷ bs) cs p = ground (arith, permits-append bs cs p)

-- An address of one family is in no prefix of the other.
addr_contains-family :
    (v6 w6 : Bool) (a : Addr) (bits x : ℕ)
    → addr_of_family v6 a ≡ true
    → addr_contains a bits w6 x ≡ true
    → w6 ≡ v6
addr_contains-family v6 w6 invalid bits x h c = ground arith
addr_contains-family v6 w6 (ip4 a) bits x h c = ground arith
addr_contains-family v6 w6 (ip6 a) bits x h c = ground arith

prefix_contains-family :
    (v6 w6 : Bool) (q : Prefix) (x : ℕ)
    → of_family v6 q ≡ true
    → prefix_contains q w6 x ≡ true
    → w6 ≡ v6
unfolding prefix_contains
prefix_contains-family v6 w6 q x h c = addr_contains-family v6 w6 q.addr q.bits x h c

-- A test that another one implies.
implied : (g d s t : Bool) → (d ≡ true → g ≡ true) → (d && s && t) ≡ (g && d && s && t)
implied g false s t h = ground arith
implied g true s t h = rw (h refl)

guard : (v w : Bool) → w ≡ v → (if v then w else not w) ≡ true
guard v w e = ground arith

entry_matches-family :
    (r : AclRule) (p : Packet)
    → entry_matches r p ≡ true
    → (if r.is_ipv6 then p.is_ipv6 else not p.is_ipv6) ≡ true
unfolding entry_matches
entry_matches-family r p h = ground arith

-- Rules of one family select no packet of the other.
none_of_family :
    (v6 : Bool) (rules : List AclRule) (p : Packet)
    → All (IsBlock v6) rules
    → p.is_ipv6 ≡ not v6
    → any_matches rules p ≡ false
none_of_family v6 [] p k h = refl
none_of_family v6 (r ∷ rules) p k h =
    ground (arith, none_of_family v6 rules p k.1, entry_matches-family r p, k.0.family)

-- The family of the packet says which of two lists decides.
joined_verdict :
    (v d4 d6 a4 a6 : Bool)
    → (v ≡ false → d4 ≡ not a4)
    → (v ≡ true → d6 ≡ not a6)
    → (v ≡ true → a4 ≡ false)
    → (v ≡ false → a6 ≡ false)
    → (if (if false then v else not v) then d4 else d6) ≡ not (a4 || a6)
joined_verdict true d4 d6 a4 a6 h4 h6 n4 n6 = ground (arith, h6 refl, n4 refl)
joined_verdict false d4 d6 a4 a6 h4 h6 n4 n6 = ground (arith, h4 refl, n6 refl)

permit_any-family :
    (f : AclFamily)
    → ((permit_any f).is_ipv6 ≡ is_acl_ipv6 f)
      × (of_family (is_acl_ipv6 f) (permit_any f).dst ≡ true)
unfolding permit_any
permit_any-family acl_ipv4 = (refl, refl)
permit_any-family acl_ipv6 = (refl, refl)

permit_any-permit : (f : AclFamily) → (permit_any f).permit ≡ true
unfolding permit_any
permit_any-permit f = refl

-- The final entry selects every packet of its family.
permit_any_matches :
    (f : AclFamily) (p : Packet)
    → IsWellFormed p
    → entry_matches (permit_any f) p ≡ (if is_acl_ipv6 f then p.is_ipv6 else not p.is_ipv6)
unfolding permit_any entry_matches prefix_contains
permit_any_matches acl_ipv4 p w = elim (Bool-cases p.is_ipv6) [
  | inl v6 ↦ rw v6
  | inr v4 ↦ let d = w.dst_fits in let s = w.src_fits in ground (arith, v4)
]
permit_any_matches acl_ipv6 p w = elim (Bool-cases p.is_ipv6) [
  | inl v6 ↦ let d = w.dst_fits in let s = w.src_fits in ground (arith, v6)
  | inr v4 ↦ rw v4
]

module _ {P : Type 0} (parse : Prefix → Option P) where
  to_binapi_rule-eq-some :
      (r : AclRule) (b : BinRule P)
      → to_binapi_rule parse r ≡ some b
      → (dst : P) × (src : P) × (parse r.dst ≡ some dst)
        × (parse r.src ≡ some src)
        × (b ≡ bin_rule r dst src)
  unfolding to_binapi_rule
  to_binapi_rule-eq-some r b e = elim (Option-cases (parse r.dst)) [
    | inl absent ↦ absurd (ground (arith, rw (absent, to_binapi_rule) at e))
    | inr (dst, de) ↦ elim (Option-cases (parse r.src)) [
      | inl absent ↦ absurd (ground (arith, rw (de, to_binapi_rule, absent) at e))
      | inr (src, se) ↦
          (dst, src, de, se, sym (some_eq (rw (se) at (rw (de, to_binapi_rule) at e))))
    ]
  ]

module _ {P : Type 0} (parse : Prefix → Option P) (contains : P → Bool → ℕ → Bool)
    (parsed : (q : Prefix) (b : P) (v6 : Bool) (x : ℕ)
      → parse q ≡ some b
      → contains b v6 x ≡ prefix_contains q v6 x) where
  -- The converted rule selects what the entry does.
  to_binapi_rule-matches :
      (v6 : Bool) (r : AclRule) (b : BinRule P) (p : Packet)
      → r.is_ipv6 ≡ v6
      → of_family v6 r.dst ≡ true
      → to_binapi_rule parse r ≡ some b
      → (bin_matches contains b p ≡ entry_matches r p) × (b.is_permit ≡ r.permit)
  unfolding bin_matches bin_fields_match entry_matches fields_match
  to_binapi_rule-matches v6 r b p fam dst_fam e =
      let (dst, src, de, se, same) = to_binapi_rule-eq-some parse r b e in
      subst (λ b. (bin_matches contains b p ≡ entry_matches r p) × (b.is_permit ≡ r.permit))
        (sym same)
        (
          rw (parsed r.dst dst p.is_ipv6 p.dst de, parsed r.src src p.is_ipv6 p.src se)
              (implied _ _ _ _ (λ c.
                guard r.is_ipv6 p.is_ipv6
                  (prefix_contains-family v6 p.is_ipv6 r.dst p.dst dst_fam c ∙ sym fam))),
          refl,
        )

  -- What the list of one family does with a packet.
  record Blocks (v6 : Bool) (rules : List AclRule) (bs : List (BinRule P)) (p : Packet)
      : Type 0 where
    reached : any_bin contains bs p ≡ (if v6 then p.is_ipv6 else not p.is_ipv6)
    decided : p.is_ipv6 ≡ v6 → permits contains bs p ≡ not (any_matches rules p)

  permit_any-Blocks :
      (f : AclFamily) (b : BinRule P) (p : Packet)
      → IsWellFormed p
      → to_binapi_rule parse (permit_any f) ≡ some b
      → Blocks (is_acl_ipv6 f) [] (b ∷ []) p
  unfolding permits
  permit_any-Blocks f b p w e =
      let (same, perm) =
        to_binapi_rule-matches (is_acl_ipv6 f) (permit_any f) b p (permit_any-family f).0
          (permit_any-family f).1 e in
      let all = same ∙ permit_any_matches f p w in
      record {
        reached = rw all (ground arith);
        decided = λ fam. rw (all, guard (is_acl_ipv6 f) p.is_ipv6 fam, perm) (permit_any-permit f);
      }

  rule-Blocks :
      (v6 : Bool) (r : AclRule) (rules : List AclRule) (b : BinRule P) (bs : List (BinRule P))
      (p : Packet)
      → IsBlock v6 r
      → to_binapi_rule parse r ≡ some b
      → Blocks v6 rules bs p
      → Blocks v6 (r ∷ rules) (b ∷ bs) p
  unfolding permits
  rule-Blocks v6 r rules b bs p k e h =
      let (same, perm) = to_binapi_rule-matches v6 r b p k.family k.dst_family e in
      record {
        reached = rw (same, h.reached) (ground (arith, entry_matches-family r p, k.family));
        decided = λ fam. rw (same, perm, k.denies) (ground (arith, h.decided fam));
      }

  build_from-Blocks :
      (f : AclFamily) (out : List (BinRule P)) (rules : List AclRule) (all : List (BinRule P))
      → All (IsBlock (is_acl_ipv6 f)) rules
      → build_from parse f out rules ≡ some all
      → (bs : List (BinRule P)) × (all ≡ out ++ bs)
        × ((p : Packet) → IsWellFormed p → Blocks (is_acl_ipv6 f) rules bs p)
  unfolding build_from
  build_from-Blocks f out [] all k e = elim (Option-cases (to_binapi_rule parse (permit_any f))) [
    | inl absent ↦ absurd (ground (arith, rw (absent, build_from) at e))
    | inr (b, found) ↦ (
      b ∷ [],
      sym (some_eq (rw (found, build_from) at e)),
      λ p w. permit_any-Blocks f b p w found,
    )
  ]
  build_from-Blocks f out (r ∷ rules) all k e = elim (Option-cases (to_binapi_rule parse r)) [
    | inl absent ↦ absurd (ground (arith, rw (absent, build_from) at e))
    | inr (b, found) ↦
        let (bs, same, h) =
          build_from-Blocks f (out ++ b ∷ []) rules all k.1 (rw (found, build_from) at e) in
        (
          b ∷ bs,
          same ∙ append_assoc out (b ∷ []) bs,
          λ p w. rule-Blocks (is_acl_ipv6 f) r rules b bs p k.0 found (h p w),
        )
  ]

  -- Let the binary API parse a prefix to one that contains the same addresses. Given deny rules
  -- whose prefixes are of their list's family, the lists built for the two families, one after
  -- the other, let a well-formed packet pass exactly when no rule of either list selects it.
  pub build_acl_rules-permits :
      (rules4 rules6 : List AclRule) (out4 out6 : List (BinRule P)) (p : Packet)
      → All (IsBlock false) rules4
      → All (IsBlock true) rules6
      → build_acl_rules parse acl_ipv4 rules4 ≡ some out4
      → build_acl_rules parse acl_ipv6 rules6 ≡ some out6
      → IsWellFormed p
      → permits contains (out4 ++ out6) p ≡ not (any_matches rules4 p || any_matches rules6 p)
  unfolding build_acl_rules
  build_acl_rules-permits rules4 rules6 out4 out6 p k4 k6 e4 e6 w =
      let (bs4, same4, h4) = build_from-Blocks acl_ipv4 [] rules4 out4 k4 e4 in
      let (bs6, same6, h6) = build_from-Blocks acl_ipv6 [] rules6 out6 k6 e6 in
      let b4 = h4 p w in
      let b6 = h6 p w in
      rw (same4, same6, permits-append contains bs4 bs6 p, b4.reached)
        (joined_verdict p.is_ipv6 _ _ _ _ b4.decided b6.decided (none_of_family false rules4 p k4)
          (none_of_family true rules6 p k6))
