-- ===== src/Translate/Rule/Blocking.antt =====
-- What an accepted rule becomes is fit for a Managed ACL of its family.
use flowspec_vpp_agent.Prelude.{◌≡◌, refl, ◌∙◌, sym, subst, Bool, true, false, if◌then◌else◌, arith}
use flowspec_vpp_agent.Flowspec.{
  Addr, invalid, ip4, ip6, is4, is6, Prefix, Family, family_ipv4, family_ipv6, Rule, default_prefix,
  dst_or_default, src_or_default,
}
use flowspec_vpp_agent.Semantics.Rules.{is_ipv6_family}
use flowspec_vpp_agent.Vpp.Types.{AclRule}
use flowspec_vpp_agent.Vpp.Acl.Blocklist.{addr_of_family, of_family, IsBlock}
use flowspec_vpp_agent.Translate.Unsupported.{ok}
use flowspec_vpp_agent.Translate.Rule.{check_family, entry, translate}
use flowspec_vpp_agent.Translate.Rule.Equivalence.{translate-Accepted}

is6-family : (a : Addr) → is6 a ≡ addr_of_family true a
is6-family invalid = refl
is6-family (ip4 x) = refl
is6-family (ip6 x) = refl

is4-family : (a : Addr) → is4 a ≡ addr_of_family false a
is4-family invalid = refl
is4-family (ip4 x) = refl
is4-family (ip6 x) = refl

-- A prefix that passes the check, or the default one, is of the rule's family.
checked-family :
    (f : Family) (has : Bool) (q : Prefix)
    → check_family f has (if has then q else default_prefix f) ≡ ok tt
    → of_family (is_ipv6_family f) (if has then q else default_prefix f) ≡ true
unfolding check_family default_prefix
checked-family family_ipv4 false q h = refl
checked-family family_ipv6 false q h = refl
checked-family family_ipv4 true q h = sym (is4-family q.addr) ∙ ground arith
checked-family family_ipv6 true q h = sym (is6-family q.addr) ∙ ground arith

-- When `translate` accepts a rule, the entry denies, is of the rule's family, and so are its prefixes.
pub translate-IsBlock :
    (r : Rule) (e : AclRule) → translate r ≡ ok e → IsBlock (is_ipv6_family r.family) e
unfolding entry dst_or_default src_or_default
translate-IsBlock r e h =
    let a = translate-Accepted r e h in
    subst (IsBlock (is_ipv6_family r.family)) a.entry_eq record {
      family = refl;
      denies = refl;
      dst_family = checked-family r.family r.match.has_dst r.match.dst a.dst_family_eq;
      src_family = checked-family r.family r.match.has_src r.match.src a.src_family_eq;
    }
