-- ===== src/Manager/Refcount.antt =====
-- internal/manager/refcount.go: every method, the new manager beside its result. A result
-- `(family, true)` of the code is `some family` here, and `(_, false)` is `none`.
pub mod Owners
pub mod Adding
pub mod Settling
pub mod Removing
pub mod Dropping
pub mod Routing
pub mod Unique
use flowspec_vpp_agent.Prelude.{
  ℕ, ◌+◌, ◌-◌, Bool, true, false, not, ◌||◌, List, [], ◌∷◌, Option, none, some, ◌==◌, if◌then◌else◌,
  Eq, beq,
}
use flowspec_vpp_agent.Data.Assoc.{lookup, insert, delete}
use flowspec_vpp_agent.Vpp.Types.{AclFamily, AclRule}
use flowspec_vpp_agent.Manager.State.{Entry, Manager, or_empty, or_zero, is_empty, rules, routes}

-- The `entry` that `addOwner` makes for a new key, and one more route of a session.
abbrev pub new_entry : {S : Type 0} → AclRule → AclFamily → Entry S
new_entry acl fam = record { acl = acl; family = fam; owners = [] }

abbrev pub own : {S : Type 0} ⦃es : Eq S⦄ → Entry S → S → Entry S
own e s = record e { owners = insert s (or_zero (lookup s e.owners) + 1) e.owners }

module _ {S K R : Type 0} ⦃es : Eq S⦄ ⦃ek : Eq K⦄ where
  add_known : K → Entry S → Bool → S → Manager S K R → Manager S K R × Bool
  add_known key e created s m = (
    record m {
      entries = insert key (own e s) m.entries;
      session_rules = insert s (insert key tt (rules m s)) m.session_rules;
    },
    created || is_empty e.owners,
  )

  -- `addOwner`
  unfoldable pub add_owner : K → AclRule → AclFamily → S → Manager S K R → Manager S K R × Bool
  unfolding add_known
  add_owner key acl fam s m = elim (lookup key m.entries) [
    | none ↦ add_known key (new_entry acl fam) true s m
    | some e ↦ add_known key e false s m
  ]

  -- The bookkeeping of `sessionRules` in `removeOwner`: `left` says that the session still owns the key.
  drop_rule : K → S → Bool → Manager S K R → List (S × List (K × Unit {0}))
  drop_rule key s left m = elim (lookup s m.session_rules) [
    | none ↦ m.session_rules
    | some sr ↦
        if left
        then m.session_rules
        else if is_empty (delete key sr)
        then delete s m.session_rules
        else insert s (delete key sr) m.session_rules
  ]

  -- The deletion of an entry without owners; otherwise the entry has the owners given.
  pub settle : K → Entry S → Manager S K R → Manager S K R × Bool
  settle key e m =
      if is_empty e.owners
      then (record m { entries = delete key m.entries }, true)
      else (record m { entries = insert key e m.entries }, false)

  release : K → S → Entry S → ℕ → Manager S K R → Manager S K R × Bool
  release key s e n m =
      if n == 0
      then (m, false)
      else let owners = if n == 1 then delete s e.owners else insert s (n - 1) e.owners in
        settle key (record e { owners = owners })
          (record m { session_rules = drop_rule key s (not (n == 1)) m })

  -- `removeOwner`
  unfoldable pub remove_owner : K → S → Manager S K R → Manager S K R × Bool
  unfolding release drop_rule settle
  remove_owner key s m = elim (lookup key m.entries) [
    | none ↦ (m, false)
    | some e ↦ release key s e (or_zero (lookup s e.owners)) m
  ]

  release_all : K → S → Entry S → Manager S K R → Manager S K R × Bool
  release_all key s e m =
      if or_zero (lookup s e.owners) == 0
      then (m, false)
      else settle key (record e { owners = delete s e.owners }) m

  -- `removeSessionOwner`
  unfoldable pub remove_session_owner : K → S → Manager S K R → Manager S K R × Bool
  unfolding release_all settle
  remove_session_owner key s m = elim (lookup key m.entries) [
    | none ↦ (m, false)
    | some e ↦ release_all key s e m
  ]

module _ {S K R : Type 0} where
  abbrev pub flag : AclFamily → Manager S K R × Bool → Manager S K R × Option AclFamily
  flag fam (m, true) = (m, some fam)
  flag fam (m, false) = (m, none)

module _ {S K R : Type 0} ⦃es : Eq S⦄ ⦃ek : Eq K⦄ where
  -- The end of `removeRoute`, once the mapping is forgotten.
  pub remove_key : K → S → Manager S K R → Manager S K R × Option AclFamily
  remove_key key s m = elim (lookup key m.entries) [
    | none ↦ (m, none)
    | some e ↦ flag e.family (remove_owner key s m)
  ]

module _ {S K R : Type 0} ⦃es : Eq S⦄ ⦃ek : Eq K⦄ ⦃er : Eq R⦄ where
  -- `routeKey`
  unfoldable pub route_key : R → S → Manager S K R → Option K
  route_key r s m = lookup r (routes m s)

  -- `rememberRoute`
  unfoldable pub remember_route : R → K → S → Manager S K R → Manager S K R
  remember_route r key s m = record m {
    session_routes = insert s (insert r key (routes m s)) m.session_routes;
  }

  abbrev pub put_routes : S → List (R × K) → Manager S K R → Manager S K R
  put_routes s rs m =
      if is_empty rs
      then record m { session_routes = delete s m.session_routes }
      else record m { session_routes = insert s rs m.session_routes }

  -- `forgetRoute`
  unfoldable pub forget_route : R → S → K → Manager S K R → Manager S K R
  forget_route r s key m = elim (lookup r (routes m s)) [
    | none ↦ m
    | some k ↦ if beq k key then put_routes s (delete r (routes m s)) m else m
  ]

  -- `removeRoute`
  unfoldable pub remove_route : R → S → Manager S K R → Manager S K R × Option AclFamily
  unfolding remove_key route_key
  remove_route r s m = elim (route_key r s m) [
    | none ↦ (m, none)
    | some key ↦ remove_key key s (forget_route r s key m)
  ]

  -- `replaceRoute`
  unfoldable pub replace_route : R → K → S → Manager S K R → Manager S K R × Option AclFamily
  replace_route r new_key s m = elim (route_key r s m) [
    | none ↦ (m, none)
    | some old ↦ if beq old new_key then (m, none) else remove_route r s m
  ]
