-- ===== src/Manager/Handlers/Refines.antt =====
-- Every handler keeps the invariant of the tables and follows the abstract view.
use Prim.Native.String.{String}
use flowspec_vpp_agent.Prelude.{
  ◌≡◌, ◌≢◌, refl, ◌∙◌, sym, ap, subst, Bool, true, not, ◌&&◌, List, [], ◌∷◌, Option, none, some,
  ◌==◌, if◌then◌else◌, Bool-cases, Option-cases, some_eq, inl, inr, Eq, beq, beq_refl, string_eq,
  arith,
}
use flowspec_vpp_agent.Data.Assoc.{delete, lookup-delete}
use flowspec_vpp_agent.Flowspec.{Rule}
use flowspec_vpp_agent.Translate.Unsupported.{Result-cases, ok}
use flowspec_vpp_agent.Translate.Rule.{translate}
use flowspec_vpp_agent.Vpp.Types.{AclRule}
use flowspec_vpp_agent.Manager.State.{Manager, is_empty, rules}
use flowspec_vpp_agent.Manager.Backend.{Backend}
use flowspec_vpp_agent.Manager.Refcount.{remove_route}
use flowspec_vpp_agent.Manager.Refcount.Owners.{owned, lists, lookup_empty, lookup_nil}
use flowspec_vpp_agent.Manager.Invariant.{Inv, added, remove_route-Inv, added-Inv}
use flowspec_vpp_agent.Manager.Handlers.{
  World, Update, Op, op_announce, op_withdraw, op_session_down, op_resync, route_identity, announce,
  session_down, apply_op, apply, run,
}
use flowspec_vpp_agent.Manager.Handlers.Sessions.{downed, routes-downed, downed-Inv}
use flowspec_vpp_agent.Manager.Handlers.Tables.{
  manager-announce_ignored, announce_same, manager-announce_new, manager-withdraw,
  manager-session_down, manager-session_down_idle, manager-resync,
}
use flowspec_vpp_agent.Manager.Handlers.Advertised.{
  advance, advance_op, advertised, view, view-remove_route, view-added, no_rules-no_routes,
}

module _ {S K : Type 0} ⦃es : Eq S⦄ ⦃ek : Eq K⦄ (key : AclRule → K) where
  -- The tables of a world are in order, and show what is given.
  record Follows (m : Manager S K String) (t : S → String → Option K) : Type 0 where
    inv : Inv key m
    shown : (s : S) (id : String) → view m s id ≡ t s id

  id-Follows : (m : Manager S K String) → Inv key m → Follows m (view m)
  id-Follows m i = record { inv = i; shown = λ s id. refl }

  -- The same tables, however they are reached.
  at-Follows :
      {m m' : Manager S K String} {t : S → String → Option K} → m' ≡ m → Follows m t → Follows m' t
  at-Follows {t = t} e f = subst (λ n. Follows n t) (sym e) f

  remove_route-Follows :
      (id : String) (s : S) (m : Manager S K String)
      → Inv key m
      → Follows
          (remove_route id s m).0
          (λ s' id'. if beq s s' && beq id id' then none else view m s' id')
  remove_route-Follows id s m i = record {
    inv = remove_route-Inv key id s m i;
    shown = view-remove_route id s m;
  }

  added-Follows :
      (id : String) (acl : AclRule) (s : S) (m : Manager S K String)
      → Inv key m
      → Follows
          (added key id acl s (remove_route id s m).0)
          (λ s' id'. if beq s s' && beq id id' then some (key acl) else view m s' id')
  added-Follows id acl s m i = record {
    inv =
        added-Inv key id acl s (remove_route id s m).0
          (view-remove_route id s m s id ∙ rw (beq_refl s, beq_refl id))
          (remove_route-Inv key id s m i);
    shown = λ s' id'.
        view-added key id acl s (remove_route id s m).0 s' id'
        ∙ rw (view-remove_route id s m s' id') (ground arith);
  }

  again-Follows :
      (id : String) (s : S) (m : Manager S K String) (k : K)
      → Inv key m
      → view m s id ≡ some k
      → Follows m (λ s' id'. if beq s s' && beq id id' then some k else view m s' id')
  again-Follows id s m k i found = record {
    inv = i;
    shown = λ s' id'. elim (Bool-cases (beq s s' && beq id id')) [
      | inl hit ↦ rw hit (ground (arith, es.beq_iff s s', string_eq.beq_iff id id', found))
      | inr miss ↦ rw miss
    ];
  }

  downed-Follows :
      (s : S) (m : Manager S K String)
      → Inv key m
      → Follows (downed s m) (λ s' id'. if beq s s' then none else view m s' id')
  downed-Follows s m i = record {
    inv = downed-Inv key s m i;
    shown = λ s' id'. rw (routes-downed key s m s') (ground (arith, lookup_nil {V = K} id'));
  }

  idle-listed :
      (s : S) (m : Manager S K String) (k : K) (s' : S)
      → Inv key m
      → is_empty (rules m s) ≡ true
      → lists (record m { session_rules = delete s m.session_rules }) k s' ≡ not (owned m k s' == 0)
  unfolding lists
  idle-listed s m k s' i empty =
      ground (
        arith,
        lookup-delete s s' m.session_rules,
        lookup_nil {V = Unit {0}} k,
        lookup_empty k (rules m s) empty,
        es.beq_iff s s',
      )
      ∙ i.listed k s'

  -- The early return of `sessionDown`.
  idle-Follows :
      (s : S) (m : Manager S K String)
      → Inv key m
      → is_empty (rules m s) ≡ true
      → Follows
          (record m { session_rules = delete s m.session_rules })
          (λ s' id'. if beq s s' then none else view m s' id')
  unfolding owned
  idle-Follows s m i empty = record {
    inv = record {
      entries_ok = i.entries_ok;
      unique = i.unique;
      listed = λ k s'. idle-listed s m k s' i empty;
      counted = i.counted;
      distinct = i.distinct;
    };
    shown = λ s' id'. ground (arith, no_rules-no_routes key s m id' i empty, es.beq_iff s s');
  }

module _ {S K : Type 0} ⦃es : Eq S⦄ ⦃ek : Eq K⦄ (le : K → K → Bool) (key : AclRule → K)
    (show : Rule → String) (back : Backend) where
  announced :
      (r : Rule) (s : S) (peer : String) (acl : AclRule) (w : World S K back)
      → Inv key w.manager
      → translate r ≡ ok acl
      → view w.manager s (route_identity show r) ≢ some (key acl)
      → Follows key
          (announce le key show back r s peer w).manager
          (λ s' id'. advance_op key show op_announce (some r) s s' id' (view w.manager s' id'))
  announced r s peer acl w i e other =
      at-Follows key ((manager-announce_new le key show back r s peer acl w e other))
        (rw e (added-Follows key (route_identity show r) acl s w.manager i))

  announce-Follows :
      (r : Rule) (s : S) (peer : String) (w : World S K back)
      → Inv key w.manager
      → Follows key
          (announce le key show back r s peer w).manager
          (λ s' id'. advance_op key show op_announce (some r) s s' id' (view w.manager s' id'))
  announce-Follows r s peer w i = elim (Result-cases (translate r)) [
    | inl (acl, e) ↦ elim (Option-cases (view w.manager s (route_identity show r))) [
      | inl absent ↦ announced r s peer acl w i e (λ h. cc)
      | inr (old, found) ↦ elim (Bool-cases (beq old (key acl))) [
        | inl hit ↦
            let here = found ∙ ap some ((ek.beq_iff old (key acl)).0 hit) in
            at-Follows key
              ((ap (λ v. v.manager) (announce_same le key show back r s peer acl w e here)))
              (rw e (again-Follows key (route_identity show r) s w.manager (key acl) i here))
        | inr miss ↦
            announced r s peer acl w i e
              (λ h. ground (arith, ek.beq_iff old (key acl), some_eq (sym found ∙ h)))
      ]
    ]
    | inr (reason, e) ↦
        at-Follows key ((manager-announce_ignored le key show back r s peer reason w e))
          (rw e (remove_route-Follows key (route_identity show r) s w.manager i))
  ]

  session_down-Follows :
      (s : S) (w : World S K back)
      → Inv key w.manager
      → Follows key
          (session_down le key show back s w).manager
          (λ s' id'. if beq s s' then none else view w.manager s' id')
  session_down-Follows s w i = elim (Bool-cases (is_empty (rules w.manager s))) [
    | inl empty ↦
        at-Follows key ((manager-session_down_idle le key show back s w empty))
          (idle-Follows key s w.manager i empty)
    | inr some_rules ↦
        at-Follows key ((manager-session_down le key show back s w some_rules))
          (downed-Follows key s w.manager i)
  ]

  op-Follows :
      (op : Op) (r : Option Rule) (s : S) (peer : String) (w : World S K back)
      → Inv key w.manager
      → Follows key
          (apply_op le key show back op r s peer w).manager
          (λ s' id'. advance_op key show op r s s' id' (view w.manager s' id'))
  unfolding apply_op
  op-Follows op_announce none s peer w i = id-Follows key w.manager i
  op-Follows op_announce (some r) s peer w i = announce-Follows r s peer w i
  op-Follows op_withdraw none s peer w i = id-Follows key w.manager i
  op-Follows op_withdraw (some r) s peer w i =
      at-Follows key ((manager-withdraw le key show back r s w))
        (remove_route-Follows key (route_identity show r) s w.manager i)
  op-Follows op_session_down r s peer w i = session_down-Follows s w i
  op-Follows op_resync r s peer w i =
      subst (λ m. Follows key m (view w.manager)) (sym (manager-resync le key show back w))
        (id-Follows key w.manager i)

  -- Every update keeps the tables in order: each key has one entry with its own ACL rule and family and
  -- with owners, a session lists the keys it owns, and it owns a key as often as its routes lead there.
  pub apply-Inv :
      (w : World S K back) (u : Update S)
      → Inv key w.manager
      → Inv key (apply le key show back w u).manager
  unfolding apply
  apply-Inv w u i = (op-Follows u.op u.rule u.session u.peer w i).inv

  -- After an update in tables in order, each session and identity lead to the key that the abstract
  -- view says: an accepted announcement sets it, a refused one, a withdrawal and the session's end
  -- clear it, and nothing else changes it.
  pub apply-advance :
      (w : World S K back) (u : Update S) (s : S) (id : String)
      → Inv key w.manager
      → view (apply le key show back w u).manager s id
        ≡ advance key show u s id (view w.manager s id)
  unfolding apply advance
  apply-advance w u s id i = (op-Follows u.op u.rule u.session u.peer w i).shown s id

  pub run-Inv :
      (us : List (Update S)) (w : World S K back)
      → Inv key w.manager
      → Inv key (run le key show back w us).manager
  unfolding run
  run-Inv [] w i = i
  run-Inv (u ∷ us) w i = run-Inv us (apply le key show back w u) (apply-Inv w u i)

  -- From tables in order, after any sequence of updates, each session and identity lead to the
  -- key that the abstract view tells from the updates alone.
  pub run-advertised :
      (us : List (Update S)) (w : World S K back) (s : S) (id : String)
      → Inv key w.manager
      → view (run le key show back w us).manager s id
        ≡ advertised key show us s id (view w.manager s id)
  unfolding run advertised
  run-advertised [] w s id i = refl
  run-advertised (u ∷ us) w s id i =
      run-advertised us (apply le key show back w u) s id (apply-Inv w u i)
      ∙ ap (advertised key show us s id) (apply-advance w u s id i)
