-- ===== src/Manager/Handlers/Sessions.antt =====
-- What `session_down` does to the tables.
use Prim.Native.String.{String}
use flowspec_vpp_agent.Prelude.{
  ◌≡◌, refl, ◌∙◌, sym, ap, subst, not, ◌&&◌, List, [], ◌∷◌, some, if◌then◌else◌, Option-cases, inl,
  inr, Eq, beq, arith, string_eq,
}
use flowspec_vpp_agent.Data.Assoc.{lookup, lookup-delete}
use flowspec_vpp_agent.Data.Assoc.Distinct.{tally}
use flowspec_vpp_agent.Vpp.Types.{AclFamily, AclRule}
use flowspec_vpp_agent.Manager.State.{Manager, routes, rules}
use flowspec_vpp_agent.Manager.Refcount.{remove_session_owner}
use flowspec_vpp_agent.Manager.Refcount.Owners.{is_some, lookup_nil, owned, lists, EntriesOk}
use flowspec_vpp_agent.Manager.Refcount.Dropping.{
  owned-remove_session_owner, remove_session_owner-EntriesOk, remove_session_owner_frame,
}
use flowspec_vpp_agent.Manager.Refcount.Unique.{Unique, remove_session_owner-Unique}
use flowspec_vpp_agent.Manager.Invariant.{Inv, Distinct-if}
use flowspec_vpp_agent.Manager.Handlers.{enter, drop_keys, forget_session}

module _ {S K : Type 0} ⦃es : Eq S⦄ ⦃ek : Eq K⦄ where
  -- The families that the loop goes on with do not matter to the tables.
  drop_keys-step :
      (k : K) (u : Unit {0}) (ks : List (K × Unit {0})) (s : S) (m : Manager S K String)
      (d : List AclFamily)
      → (d' : List AclFamily) × (drop_keys ((k, u) ∷ ks) s m d
          ≡ drop_keys ks s (remove_session_owner k s m).0 d')
  unfolding drop_keys remove_session_owner
  drop_keys-step k u ks s m d = elim (Option-cases (lookup k m.entries)) [
    | inl absent ↦ (d, rw (absent, drop_keys, remove_session_owner))
    | inr (e, found) ↦ (
      if (remove_session_owner k s m).1 then enter (some e.family) d else d,
      rw (found, drop_keys),
    )
  ]

  drop_keys_frame :
      (ks : List (K × Unit {0})) (s : S) (m : Manager S K String) (d : List AclFamily)
      → (drop_keys ks s m d).0.session_routes ≡ m.session_routes
  unfolding drop_keys
  drop_keys_frame [] s m d = refl
  drop_keys_frame ((j, u) ∷ ks) s m d =
      let (d', step) = drop_keys-step j u ks s m d in
      ap (λ t. t.0.session_routes) step
      ∙ drop_keys_frame ks s (remove_session_owner j s m).0 d'
      ∙ (remove_session_owner_frame j s m).0

  drop_keys_rules :
      (ks : List (K × Unit {0})) (s : S) (m : Manager S K String) (d : List AclFamily)
      → (drop_keys ks s m d).0.session_rules ≡ m.session_rules
  unfolding drop_keys
  drop_keys_rules [] s m d = refl
  drop_keys_rules ((j, u) ∷ ks) s m d =
      let (d', step) = drop_keys-step j u ks s m d in
      ap (λ t. t.0.session_rules) step
      ∙ drop_keys_rules ks s (remove_session_owner j s m).0 d'
      ∙ (remove_session_owner_frame j s m).1

  drop_keys-EntriesOk :
      (key : AclRule → K) (ks : List (K × Unit {0})) (s : S) (m : Manager S K String)
      (d : List AclFamily)
      → EntriesOk key m
      → EntriesOk key (drop_keys ks s m d).0
  unfolding drop_keys
  drop_keys-EntriesOk key [] s m d h = h
  drop_keys-EntriesOk key ((j, u) ∷ ks) s m d h =
      let (d', step) = drop_keys-step j u ks s m d in
      subst (λ t. EntriesOk key t.0) (sym step)
        (drop_keys-EntriesOk key ks s (remove_session_owner j s m).0 d'
          (remove_session_owner-EntriesOk key j s m h))

  drop_keys-Unique :
      (ks : List (K × Unit {0})) (s : S) (m : Manager S K String) (d : List AclFamily)
      → Unique m
      → Unique (drop_keys ks s m d).0
  unfolding drop_keys
  drop_keys-Unique [] s m d h = h
  drop_keys-Unique ((j, u) ∷ ks) s m d h =
      let (d', step) = drop_keys-step j u ks s m d in
      subst (λ t. Unique t.0) (sym step)
        (drop_keys-Unique ks s (remove_session_owner j s m).0 d'
          (remove_session_owner-Unique j s m h))

  owned-drop_keys :
      (ks : List (K × Unit {0})) (s : S) (m : Manager S K String) (d : List AclFamily) (k : K)
      (s' : S)
      → owned (drop_keys ks s m d).0 k s'
        ≡ (if beq s s' && is_some (lookup k ks) then 0 else owned m k s')
  unfolding lookup drop_keys
  owned-drop_keys [] s m d k s' = ground arith
  owned-drop_keys ((j, u) ∷ ks) s m d k s' =
      let (d', step) = drop_keys-step j u ks s m d in
      ap (λ t. owned t.0 k s') step
      ∙ owned-drop_keys ks s (remove_session_owner j s m).0 d' k s'
      ∙ ground (arith, owned-remove_session_owner j s m k s')

module _ {S K : Type 0} ⦃es : Eq S⦄ ⦃ek : Eq K⦄ where
  -- The tables after a session is down.
  unfoldable pub downed : S → Manager S K String → Manager S K String
  downed s m = forget_session s (drop_keys (rules m s) s m []).0

module _ {S K : Type 0} ⦃es : Eq S⦄ ⦃ek : Eq K⦄ (key : AclRule → K) where
  pub owned-downed :
      (s : S) (m : Manager S K String) (k : K) (s' : S)
      → Inv key m
      → owned (downed s m) k s' ≡ (if beq s s' then 0 else owned m k s')
  unfolding downed owned lists
  owned-downed s m k s' inv =
      owned-drop_keys (rules m s) s m [] k s' ∙ ground (arith, inv.listed k s, es.beq_iff s s')

  pub routes-downed :
      (s : S) (m : Manager S K String) (s' : S)
      → routes (downed s m) s' ≡ (if beq s s' then [] else routes m s')
  unfolding downed
  routes-downed s m s' =
      rw (drop_keys_frame (rules m s) s m []) (ground (arith, lookup-delete s s' m.session_routes))

  lists-downed :
      (s : S) (m : Manager S K String) (k : K) (s' : S)
      → lists (downed s m) k s' ≡ (not (beq s s') && lists m k s')
  unfolding downed lists
  lists-downed s m k s' =
      rw (drop_keys_rules (rules m s) s m [])
        (ground (arith, lookup-delete s s' m.session_rules, lookup_nil {V = Unit {0}} k))

  pub downed-Inv : (s : S) (m : Manager S K String) → Inv key m → Inv key (downed s m)
  unfolding downed tally
  downed-Inv s m inv = record {
    entries_ok = drop_keys-EntriesOk key (rules m s) s m [] inv.entries_ok;
    unique = drop_keys-Unique (rules m s) s m [] inv.unique;
    listed = λ k s'.
        lists-downed s m k s' ∙ rw (owned-downed s m k s' inv) (ground (arith, inv.listed k s'));
    counted = λ k s'.
        owned-downed s m k s' inv ∙ rw (routes-downed s m s') (ground (arith, inv.counted k s'));
    distinct = λ s'.
        rw (routes-downed s m s') (Distinct-if (beq s s') [] (routes m s') tt (inv.distinct s'));
  }
