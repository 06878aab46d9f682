-- ===== src/Manager/Handlers.antt =====
-- internal/manager/manager.go and reconcile.go: the handlers of the four updates, and `reconcile`.
pub mod Sessions
pub mod Tables
pub mod Advertised
pub mod Refines
pub mod Desired
use Prim.Native.String.{String}
use text.Mathlib.Text.{◌==◌ as str_eq}
use flowspec_vpp_agent.Prelude.{
  ℕ, Bool, true, false, not, ◌&&◌, List, [], ◌∷◌, ◌++◌, length, Option, none, some, if◌then◌else◌,
  Eq, beq, string_eq,
}
use flowspec_vpp_agent.Data.Assoc.{lookup, delete}
use flowspec_vpp_agent.Data.Sort
use flowspec_vpp_agent.Flowspec.{Family, Rule}
use flowspec_vpp_agent.Translate.Unsupported.{Result, ok, unsupported, Reason}
use flowspec_vpp_agent.Translate.Rule.{translate}
use flowspec_vpp_agent.Vpp.Types.{AclFamily, acl_ipv4, acl_ipv6, AclRule}
use flowspec_vpp_agent.Manager.State.{Entry, Manager, is_empty, family_of, rules}
use flowspec_vpp_agent.Manager.Refcount.{
  add_owner, remove_session_owner, route_key, remember_route, remove_route, replace_route,
}
use flowspec_vpp_agent.Manager.Backend.{Backend}

-- internal/bgp/event.go
pub data Op : Type 0 where
  op_announce op_withdraw op_session_down op_resync : Op

pub record Update (S : Type 0) : Type 0 where
  pub session : S
  pub op : Op
  pub rule : Option Rule
  pub peer : String

-- The calls of `Metrics`.
pub data Metric : Type 0 where
  rule_applied : Family → String → Metric
  rule_ignored : Reason → Family → String → Metric
  acl_entries : AclFamily → ℕ → Metric

abbrev pub same_family : AclFamily → AclFamily → Bool
same_family acl_ipv4 acl_ipv4 = true
same_family acl_ipv6 acl_ipv6 = true
same_family _ _ = false

-- A family entered into the set of dirty ones. Go visits such a set in no fixed order.
abbrev pub enter : Option AclFamily → List AclFamily → List AclFamily
enter none fs = fs
enter (some f) [] = f ∷ []
enter (some f) (g ∷ fs) = if same_family f g then g ∷ fs else g ∷ enter (some f) fs

live : {S : Type 0} → AclFamily → Entry S → Bool
live f e = same_family e.family f && not (is_empty e.owners)

module _ {S K : Type 0} where
  -- The first loop of `desired`.
  unfoldable pub family_keys : AclFamily → List (K × Entry S) → List K
  unfolding live
  family_keys f [] = []
  family_keys f ((k, e) ∷ m) = let rest = family_keys f m in if live f e then k ∷ rest else rest

module _ {S K : Type 0} ⦃ek : Eq K⦄ where
  -- The second loop; every key is there.
  unfoldable pub acls : List (K × Entry S) → List K → List AclRule
  acls m [] = []
  acls m (k ∷ ks) = elim (lookup k m) [ none ↦ acls m ks | some e ↦ e.acl ∷ acls m ks ]

module _ {S K : Type 0} ⦃ek : Eq K⦄ (le : K → K → Bool) where
  -- `desired`
  unfoldable pub desired : {R : Type 0} → Manager S K R → AclFamily → List AclRule
  unfolding family_keys acls
  desired m f = acls m.entries (Sort.sort le (family_keys f m.entries))

module _ {S K : Type 0} ⦃es : Eq S⦄ ⦃ek : Eq K⦄ where
  -- The loop of `sessionDown` over the session's keys.
  unfoldable pub drop_keys :
      List (K × Unit {0})
      → S
      → Manager S K String
      → List AclFamily
      → Manager S K String × List AclFamily
  drop_keys [] s m dirty = (m, dirty)
  drop_keys ((k, _) ∷ ks) s m dirty = elim (lookup k m.entries) [
    | none ↦ drop_keys ks s m dirty
    | some e ↦
        let (m', gone) = remove_session_owner k s m in
        drop_keys ks s m' (if gone then enter (some e.family) dirty else dirty)
  ]

  abbrev pub forget_session : S → Manager S K String → Manager S K String
  forget_session s m = record m {
    session_rules = delete s m.session_rules;
    session_routes = delete s m.session_routes;
  }

-- The manager, the backend's state and the metrics reported so far, latest first.
pub record World (S K : Type 0) (back : Backend) : Type 0 where
  pub manager : Manager S K String
  pub backend : back.State
  pub metrics : List Metric

module _ {S K : Type 0} {back : Backend} where
  abbrev pub report : Metric → World S K back → World S K back
  report x w = record w { metrics = x ∷ w.metrics }

  abbrev pub with_manager : Manager S K String → World S K back → World S K back
  with_manager m w = record w { manager = m }

-- `routeIdentity`; `show` stands for the formatted family and match of a rule with no text.
unfoldable pub route_identity : (Rule → String) → Rule → String
route_identity show r = if not (str_eq r.raw "") then r.raw else show r

module _ {S K : Type 0} ⦃es : Eq S⦄ ⦃ek : Eq K⦄ (le : K → K → Bool) (key : AclRule → K)
    (show : Rule → String) (back : Backend) where
  -- `reconcile`
  unfoldable pub reconcile : World S K back → AclFamily → World S K back
  reconcile w f =
      let rules = desired le w.manager f in
      let (b, done) = back.replace w.backend f rules in
      if done
      then report (acl_entries f (length rules)) (record w { backend = b })
      else record w { backend = b }

  abbrev pub reconcile_all : List AclFamily → World S K back → World S K back
  reconcile_all [] w = w
  reconcile_all (f ∷ fs) w = reconcile_all fs (reconcile w f)

  -- `announce`, when `Translate` refuses the rule; the metric is that of `reportIgnored`.
  announce_ignored : Rule → S → String → Reason → World S K back → World S K back
  announce_ignored r s peer reason w =
      let (m, dirty) = remove_route (route_identity show r) s w.manager in
      reconcile_all (enter dirty []) (report (rule_ignored reason r.family peer) (with_manager m w))

  -- `announce`, past the test for an unchanged key.
  announce_replaced : Rule → S → String → AclRule → World S K back → World S K back
  announce_replaced r s peer acl w =
      let id = route_identity show r in
      let (m, old_dirty) = replace_route id (key acl) s w.manager in
      let (m', dirty) = add_owner (key acl) acl (family_of acl) s m in
      let w' = with_manager (remember_route id (key acl) s m') w in
      if dirty
      then reconcile_all (enter (some (family_of acl)) (enter old_dirty []))
          (report (rule_applied r.family peer) w')
      else reconcile_all (enter old_dirty []) w'

  announce_accepted : Rule → S → String → AclRule → World S K back → World S K back
  unfolding announce_replaced
  announce_accepted r s peer acl w = elim (route_key (route_identity show r) s w.manager) [
    | none ↦ announce_replaced r s peer acl w
    | some old ↦ if beq old (key acl) then w else announce_replaced r s peer acl w
  ]

  -- `announce` with its rule at hand.
  unfoldable pub announce : Rule → S → String → World S K back → World S K back
  unfolding announce_accepted announce_ignored
  announce r s peer w = elim (translate r) [
    | ok acl ↦ announce_accepted r s peer acl w
    | unsupported reason ↦ announce_ignored r s peer reason w
  ]

  -- `withdraw` with its rule at hand.
  unfoldable pub withdraw : Rule → S → World S K back → World S K back
  withdraw r s w =
      let (m, dirty) = remove_route (route_identity show r) s w.manager in
      reconcile_all (enter dirty []) (with_manager m w)

  -- `sessionDown`
  unfoldable pub session_down : S → World S K back → World S K back
  unfolding drop_keys
  session_down s w =
      if is_empty (rules w.manager s)
      then with_manager (record (w.manager) { session_rules = delete s w.manager.session_rules }) w
      else let (m, dirty) = drop_keys (rules w.manager s) s w.manager [] in
        reconcile_all dirty (with_manager (forget_session s m) w)

  -- `resync`
  unfoldable pub resync : World S K back → World S K back
  resync w = reconcile (reconcile w acl_ipv4) acl_ipv6

  apply_op : Op → Option Rule → S → String → World S K back → World S K back
  apply_op op_announce none s peer w = w
  apply_op op_announce (some r) s peer w = announce r s peer w
  apply_op op_withdraw none s peer w = w
  apply_op op_withdraw (some r) s peer w = withdraw r s w
  apply_op op_session_down r s peer w = session_down s w
  apply_op op_resync r s peer w = resync w

  -- `Apply`
  unfoldable pub apply : World S K back → Update S → World S K back
  unfolding apply_op
  apply w u = apply_op u.op u.rule u.session u.peer w

  -- `Run`, over the updates taken from the channel until it closes or the context is cancelled.
  unfoldable pub run : World S K back → List (Update S) → World S K back
  run w [] = w
  run w (u ∷ us) = run (apply w u) us
