-- ===== src/Examples/Sessions.antt =====
-- Updates of internal/manager on a backend that keeps what it is given.
use Prim.Native.String.{String}
use mathlib.Core.List.{Memᴰ}
use Memᴰ.{head}
use flowspec_vpp_agent.Prelude.{
  ℕ, ◌+◌, ◌-◌, ◌≡◌, ◌≢◌, refl, true, List, [], ◌∷◌, none, some, leb, if◌then◌else◌, string_eq,
  nat_eq, arith,
}
use flowspec_vpp_agent.Data.Assoc.{lookup, insert}
use flowspec_vpp_agent.Flowspec.{Rule}
use flowspec_vpp_agent.Vpp.Types.{AclFamily, acl_ipv4, acl_ipv6, AclRule}
use flowspec_vpp_agent.Manager.State.{Manager, new_manager, family_of}
use flowspec_vpp_agent.Manager.Backend.{Backend}
use flowspec_vpp_agent.Manager.Refcount.{
  add_owner, remove_owner, remove_session_owner, remember_route,
}
use flowspec_vpp_agent.Manager.Refcount.Owners.{owned, both}
use flowspec_vpp_agent.Manager.Refcount.Adding.{one_if, owned-add_owner}
use flowspec_vpp_agent.Manager.Refcount.Removing.{owned-remove_owner}
use flowspec_vpp_agent.Manager.Refcount.Dropping.{owned-remove_session_owner}
use flowspec_vpp_agent.Manager.Invariant.{Inv, new_manager-Inv, added, added-Inv}
use flowspec_vpp_agent.Manager.Handlers.{
  World, Update, op_announce, op_session_down, same_family, family_keys, acls, desired, apply, run,
}
use flowspec_vpp_agent.Manager.Handlers.Desired.{same_family_refl, desired_sound, desired_complete}
use flowspec_vpp_agent.Manager.Handlers.Advertised.{view, advance, advertised}
use flowspec_vpp_agent.Manager.Handlers.Refines.{apply-Inv, apply-advance, run-advertised}
use flowspec_vpp_agent.Examples.Rules.{dns_rule, dns_entry}

abbrev put_acl : (AclFamily → List AclRule) → AclFamily → List AclRule → AclFamily → List AclRule
put_acl b f rules g = if same_family f g then rules else b g

put_acl_other :
    (b : AclFamily → List AclRule) (f g : AclFamily) (rules : List AclRule)
    → f ≢ g
    → put_acl b f rules g ≡ b g
put_acl_other b acl_ipv4 acl_ipv4 rules h = absurd (h refl)
put_acl_other b acl_ipv4 acl_ipv6 rules h = refl
put_acl_other b acl_ipv6 acl_ipv4 rules h = refl
put_acl_other b acl_ipv6 acl_ipv6 rules h = absurd (h refl)

abbrev memory : Backend
memory = record {
  State = AclFamily → List AclRule;
  replace = λ b f rules. (put_acl b f rules, true);
  held = λ b f. b f;
  held_replaced = λ b f rules done. rw (same_family_refl f);
  held_refused = λ b f rules refused. ground arith;
  held_other = λ b f g rules other. put_acl_other b f g rules other;
}

abbrev port_key : AclRule → ℕ
port_key e = e.dst_port_or_icmp_code_first

abbrev no_text : Rule → String
no_text r = "rule"

abbrev start : World String ℕ memory
start = record { manager = new_manager; backend = λ f. []; metrics = [] }

abbrev announce_dns : Update String
announce_dns = record { session = "a"; op = op_announce; rule = some dns_rule; peer = "192.0.2.1" }

abbrev down : Update String
down = record { session = "a"; op = op_session_down; rule = none; peer = "" }

-- The tables with one route.
abbrev one_route : Manager String ℕ String
one_route = added port_key "rule" dns_entry "a" new_manager

one_route-Inv : Inv port_key one_route
unfolding lookup
one_route-Inv = added-Inv port_key "rule" dns_entry "a" new_manager refl (new_manager-Inv port_key)

one_route_shown : view one_route "a" "rule" ≡ some 53
unfolding lookup insert remember_route add_owner
one_route_shown = refl

one_route_desired : Memᴰ dns_entry (desired leb one_route acl_ipv4)
unfolding lookup insert remember_route add_owner desired family_keys acls
    flowspec_vpp_agent.Data.Sort.sort
one_route_desired = head refl

apply-Inv_example : Inv port_key (apply leb port_key no_text memory start announce_dns).manager
apply-Inv_example =
    apply-Inv leb port_key no_text memory start announce_dns (new_manager-Inv port_key)

apply-advance_example :
    view (apply leb port_key no_text memory start announce_dns).manager "a" "rule"
    ≡ advance port_key no_text announce_dns "a" "rule" (view start.manager "a" "rule")
apply-advance_example =
    apply-advance leb port_key no_text memory start announce_dns "a" "rule"
      (new_manager-Inv port_key)

run-advertised_example :
    view (run leb port_key no_text memory start (announce_dns ∷ down ∷ [])).manager "a" "rule"
    ≡ advertised port_key no_text
        (announce_dns ∷ down ∷ [])
        "a"
        "rule"
        (view start.manager "a" "rule")
run-advertised_example =
    run-advertised leb port_key no_text memory (announce_dns ∷ down ∷ []) start "a" "rule"
      (new_manager-Inv port_key)

desired_sound_example :
    (family_of dns_entry ≡ acl_ipv4)
    × (s : String) × (id : String) × (view one_route s id ≡ some (port_key dns_entry))
desired_sound_example =
    desired_sound leb port_key one_route acl_ipv4 dns_entry one_route-Inv one_route_desired

desired_complete_example :
    (a : AclRule) × (port_key a ≡ 53) × Memᴰ a (desired leb one_route (family_of a))
desired_complete_example =
    desired_complete leb port_key one_route "a" "rule" 53 one_route-Inv one_route_shown

owned-add_owner_example :
    owned (add_owner 53 dns_entry acl_ipv4 "a" one_route).0 53 "a"
    ≡ owned one_route 53 "a" + one_if (both {K = ℕ} {S = String} 53 "a" 53 "a")
owned-add_owner_example = owned-add_owner 53 dns_entry acl_ipv4 "a" one_route 53 "a"

owned-remove_owner_example :
    owned (remove_owner 53 "a" one_route).0 53 "a"
    ≡ owned one_route 53 "a" - one_if (both {K = ℕ} {S = String} 53 "a" 53 "a")
owned-remove_owner_example = owned-remove_owner 53 "a" one_route 53 "a"

owned-remove_session_owner_example :
    owned (remove_session_owner 53 "a" one_route).0 53 "b"
    ≡ (if both {K = ℕ} {S = String} 53 "a" 53 "b" then 0 else owned one_route 53 "b")
owned-remove_session_owner_example = owned-remove_session_owner 53 "a" one_route 53 "b"
