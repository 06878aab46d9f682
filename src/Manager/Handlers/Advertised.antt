-- ===== src/Manager/Handlers/Advertised.antt =====
-- What each session advertises, told from the updates alone, and that the handlers' tables hold just
-- that. This is the abstract view of the manager: a map from session and NLRI identity to a key.
use Prim.Native.String.{String}
use flowspec_vpp_agent.Prelude.{
  ◌≡◌, true, ◌&&◌, List, [], ◌∷◌, Option, none, some, if◌then◌else◌, Option-cases, inl, inr, Eq,
  beq, string_eq, arith,
}
use flowspec_vpp_agent.Data.Assoc.{lookup, lookup-insert, lookup-delete}
use flowspec_vpp_agent.Data.Assoc.Distinct.{tally_pos}
use flowspec_vpp_agent.Flowspec.{Rule}
use flowspec_vpp_agent.Translate.Unsupported.{Result, ok, unsupported}
use flowspec_vpp_agent.Translate.Rule.{translate}
use flowspec_vpp_agent.Vpp.Types.{AclRule}
use flowspec_vpp_agent.Manager.State.{Manager, is_empty, routes, rules}
use flowspec_vpp_agent.Manager.Refcount.{remove_route}
use flowspec_vpp_agent.Manager.Refcount.Owners.{lists, lookup_empty}
use flowspec_vpp_agent.Manager.Refcount.Routing.{routes-remove_route}
use flowspec_vpp_agent.Manager.Invariant.{Inv, added, routes-added}
use flowspec_vpp_agent.Manager.Handlers.{
  Update, Op, op_announce, op_withdraw, op_session_down, route_identity,
}

module _ {K : Type 0} (key : AclRule → K) where
  abbrev pub accepted : Result AclRule → Option K
  accepted (ok acl) = some (key acl)
  accepted (unsupported reason) = none

module _ {S K : Type 0} ⦃es : Eq S⦄ (key : AclRule → K) (show : Rule → String) where
  -- The key that a session advertises under an identity after an update, from the key before it.
  abbrev pub advance_op : Op → Option Rule → S → S → String → Option K → Option K
  advance_op op_announce (some r) s s' id old =
      if beq s s' && beq (route_identity show r) id then accepted key (translate r) else old
  advance_op op_withdraw (some r) s s' id old =
      if beq s s' && beq (route_identity show r) id then none else old
  advance_op op_session_down r s s' id old = if beq s s' then none else old
  advance_op _ _ s s' id old = old

  unfoldable pub advance : Update S → S → String → Option K → Option K
  advance u s id old = advance_op u.op u.rule u.session s id old

  unfoldable pub advertised : List (Update S) → S → String → Option K → Option K
  advertised [] s id old = old
  advertised (u ∷ us) s id old = advertised us s id (advance u s id old)

module _ {S K : Type 0} ⦃es : Eq S⦄ ⦃ek : Eq K⦄ where
  abbrev pub view : Manager S K String → S → String → Option K
  view m s id = lookup id (routes m s)

  pub view-remove_route :
      (id : String) (s : S) (m : Manager S K String) (s' : S) (id' : String)
      → view (remove_route id s m).0 s' id'
        ≡ (if beq s s' && beq id id' then none else view m s' id')
  view-remove_route id s m s' id' =
      rw (routes-remove_route id s m s')
        (ground (arith, lookup-delete id id' (routes m s), es.beq_iff s s'))

  pub view-added :
      (key : AclRule → K) (id : String) (acl : AclRule) (s : S) (m : Manager S K String) (s' : S)
      (id' : String)
      → view (added key id acl s m) s' id'
        ≡ (if beq s s' && beq id id' then some (key acl) else view m s' id')
  view-added key id acl s m s' id' =
      rw (routes-added key id acl s m s')
        (ground (arith, lookup-insert id id' (key acl) (routes m s), es.beq_iff s s'))

  -- A session without keys has no routes.
  pub no_rules-no_routes :
      (key : AclRule → K) (s : S) (m : Manager S K String) (id : String)
      → Inv key m
      → is_empty (rules m s) ≡ true
      → view m s id ≡ none
  unfolding lists
  no_rules-no_routes key s m id inv empty = elim (Option-cases (view m s id)) [
    | inl absent ↦ absent
    | inr (k, found) ↦ absurd (
        ground (
          arith,
          tally_pos id k (routes m s) found,
          inv.counted k s,
          inv.listed k s,
          lookup_empty k (rules m s) empty,
        ))
  ]
