-- ===== src/Manager/Handlers/Tables.antt =====
-- The tables after each handler: reconciling leaves them alone.
use Prim.Native.String.{String}
use flowspec_vpp_agent.Prelude.{
  ◌≡◌, ◌≢◌, refl, ◌∙◌, ap, Bool, true, false, List, [], ◌∷◌, some, Bool-cases, Option-cases, inl,
  inr, Eq, beq, beq_refl, string_eq, arith,
}
use flowspec_vpp_agent.Data.Assoc.{lookup, delete}
use flowspec_vpp_agent.Flowspec.{Rule}
use flowspec_vpp_agent.Translate.Unsupported.{ok, unsupported, Reason}
use flowspec_vpp_agent.Translate.Rule.{translate}
use flowspec_vpp_agent.Vpp.Types.{AclFamily, acl_ipv4, acl_ipv6, AclRule}
use flowspec_vpp_agent.Manager.State.{is_empty, routes, rules, family_of}
use flowspec_vpp_agent.Manager.Backend.{Backend}
use flowspec_vpp_agent.Manager.Refcount.{
  add_owner, route_key, remember_route, remove_route, replace_route,
}
use flowspec_vpp_agent.Manager.Refcount.Routing.{replace_route-eq}
use flowspec_vpp_agent.Manager.Invariant.{added}
use flowspec_vpp_agent.Manager.Handlers.{
  World, route_identity, enter, drop_keys, reconcile, reconcile_all, announce_ignored,
  announce_replaced, announce_accepted, announce, withdraw, session_down, resync, with_manager,
  report, rule_applied, rule_ignored,
}
use flowspec_vpp_agent.Manager.Handlers.Sessions.{downed}

module _ {S K : Type 0} ⦃es : Eq S⦄ ⦃ek : Eq K⦄ (le : K → K → Bool) (key : AclRule → K)
    (show : Rule → String) (back : Backend) where
  manager-reconcile :
      (w : World S K back) (f : AclFamily) → (reconcile le key show back w f).manager ≡ w.manager
  unfolding reconcile
  manager-reconcile w f = ground arith

  pub manager-reconcile_all :
      (fs : List AclFamily) (w : World S K back)
      → (reconcile_all le key show back fs w).manager ≡ w.manager
  manager-reconcile_all [] w = refl
  manager-reconcile_all (f ∷ fs) w =
      manager-reconcile_all fs (reconcile le key show back w f) ∙ manager-reconcile w f

  pub manager-announce_ignored :
      (r : Rule) (s : S) (peer : String) (reason : Reason) (w : World S K back)
      → translate r ≡ unsupported reason
      → (announce le key show back r s peer w).manager
        ≡ (remove_route (route_identity show r) s w.manager).0
  unfolding announce announce_ignored
  manager-announce_ignored r s peer reason w e =
      let p = remove_route (route_identity show r) s w.manager in
      rw (e, announce)
        (manager-reconcile_all (enter p.1 [])
          (report (rule_ignored reason r.family peer) (with_manager p.0 w)))

  -- A rule that stands under its key already changes nothing.
  pub announce_same :
      (r : Rule) (s : S) (peer : String) (acl : AclRule) (w : World S K back)
      → translate r ≡ ok acl
      → lookup (route_identity show r) (routes w.manager s) ≡ some (key acl)
      → announce le key show back r s peer w ≡ w
  unfolding announce announce_accepted route_key
  announce_same r s peer acl w e found =
      rw (e, announce) (rw (found, announce_accepted) (rw (beq_refl (key acl))))

  manager-announce_replaced :
      (r : Rule) (s : S) (peer : String) (acl : AclRule) (w : World S K back)
      → (announce_replaced le key show back r s peer acl w).manager
        ≡ added key
            (route_identity show r)
            acl
            s
            (replace_route (route_identity show r) (key acl) s w.manager).0
  unfolding announce_replaced
  manager-announce_replaced r s peer acl w =
      let id = route_identity show r in
      let old = replace_route id (key acl) s w.manager in
      let new = add_owner (key acl) acl (family_of acl) s old.0 in
      let w' = with_manager (remember_route id (key acl) s new.0) w in
      elim (Bool-cases new.1) [
        | inl dirty ↦ rw dirty (
            manager-reconcile_all (enter (some (family_of acl)) (enter old.1 []))
              (report (rule_applied r.family peer) w'))
        | inr clean ↦ rw clean (manager-reconcile_all (enter old.1 []) w')
      ]

  announce_accepted_new :
      (r : Rule) (s : S) (peer : String) (acl : AclRule) (w : World S K back)
      → lookup (route_identity show r) (routes w.manager s) ≢ some (key acl)
      → announce_accepted le key show back r s peer acl w
        ≡ announce_replaced le key show back r s peer acl w
  unfolding announce_accepted route_key
  announce_accepted_new r s peer acl w other =
      elim (Option-cases (lookup (route_identity show r) (routes w.manager s))) [
        | inl absent ↦ rw (absent, announce_accepted)
        | inr (old, found) ↦ elim (Bool-cases (beq old (key acl))) [
          | inl hit ↦ absurd (other (found ∙ ap some ((ek.beq_iff old (key acl)).0 hit)))
          | inr miss ↦ rw (found, announce_accepted) (rw miss)
        ]
      ]

  pub manager-announce_new :
      (r : Rule) (s : S) (peer : String) (acl : AclRule) (w : World S K back)
      → translate r ≡ ok acl
      → lookup (route_identity show r) (routes w.manager s) ≢ some (key acl)
      → (announce le key show back r s peer w).manager
        ≡ added key
            (route_identity show r)
            acl
            s
            (remove_route (route_identity show r) s w.manager).0
  unfolding announce
  manager-announce_new r s peer acl w e other =
      rw (e, announce)
        (ap (λ v. v.manager) (announce_accepted_new r s peer acl w other)
          ∙ manager-announce_replaced r s peer acl w
          ∙ ap (λ p. added key (route_identity show r) acl s p.0)
              (replace_route-eq (route_identity show r) (key acl) s w.manager other))

  pub manager-withdraw :
      (r : Rule) (s : S) (w : World S K back)
      → (withdraw le key show back r s w).manager
        ≡ (remove_route (route_identity show r) s w.manager).0
  unfolding withdraw
  manager-withdraw r s w =
      let p = remove_route (route_identity show r) s w.manager in
      manager-reconcile_all (enter p.1 []) (with_manager p.0 w)

  pub manager-session_down_idle :
      (s : S) (w : World S K back)
      → is_empty (rules w.manager s) ≡ true
      → (session_down le key show back s w).manager
        ≡ record (w.manager) { session_rules = delete s w.manager.session_rules }
  unfolding session_down
  manager-session_down_idle s w empty = rw (empty, session_down)

  pub manager-session_down :
      (s : S) (w : World S K back)
      → is_empty (rules w.manager s) ≡ false
      → (session_down le key show back s w).manager ≡ downed s w.manager
  unfolding session_down downed
  manager-session_down s w some_rules =
      rw (some_rules, session_down)
        (manager-reconcile_all (drop_keys (rules w.manager s) s w.manager []).1
          (with_manager (downed s w.manager) w))

  pub manager-resync : (w : World S K back) → (resync le key show back w).manager ≡ w.manager
  unfolding resync
  manager-resync w =
      manager-reconcile (reconcile le key show back w acl_ipv4) acl_ipv6
      ∙ manager-reconcile w acl_ipv4
