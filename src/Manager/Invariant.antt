-- ===== src/Manager/Invariant.antt =====
-- The invariant of the three tables, and that every change of the routes keeps it.
use flowspec_vpp_agent.Prelude.{
  ◌+◌, ◌-◌, ◌≡◌, refl, ◌∙◌, sym, ap, subst, Bool, true, false, ◌&&◌, List, none, some,
  if◌then◌else◌, Bool-cases, Option-cases, inl, inr, Eq, beq, arith,
}
use flowspec_vpp_agent.Data.Assoc.{lookup, insert, delete}
use flowspec_vpp_agent.Data.Assoc.Distinct.{
  Distinct, delete-Distinct, insert-Distinct, tally, tally-insert, tally-delete,
}
use flowspec_vpp_agent.Vpp.Types.{AclRule}
use flowspec_vpp_agent.Manager.State.{Manager, new_manager, or_empty, routes, family_of}
use flowspec_vpp_agent.Manager.Refcount.{
  add_owner, remove_owner, remember_route, put_routes, remove_route,
}
use flowspec_vpp_agent.Manager.Refcount.Owners.{owned, lists, EntriesOk, Listed}
use flowspec_vpp_agent.Manager.Refcount.Adding.{
  one_if, owned-add_owner, add_owner-EntriesOk, add_owner-Listed, session_routes-add_owner,
}
use flowspec_vpp_agent.Manager.Refcount.Removing.{
  owned-remove_owner, remove_owner-EntriesOk, remove_owner-Listed, session_routes-remove_owner,
}
use flowspec_vpp_agent.Manager.Refcount.Routing.{
  routes-put_routes, owned-put_routes, put_routes-EntriesOk, put_routes-Listed,
  routes-remember_route, remove_route_absent, remove_route_found,
}
use flowspec_vpp_agent.Manager.Refcount.Unique.{
  Unique, add_owner-Unique, remove_owner-Unique, put_routes-Unique,
}

module _ {S K R : Type 0} ⦃es : Eq S⦄ ⦃ek : Eq K⦄ ⦃er : Eq R⦄ (key : AclRule → K) where
  -- Every key has one entry, entries are in order, a session lists the keys that it owns, it owns a key as often as its routes
  -- lead to it, and its routes have distinct identities.
  pub record Inv (m : Manager S K R) : Type 0 where
    pub entries_ok : EntriesOk key m
    pub unique : Unique m
    pub listed : Listed m
    pub counted : (k : K) (s : S) → owned m k s ≡ tally k (routes m s)
    pub distinct : (s : S) → Distinct (routes m s)

  pub new_manager-Inv : Inv new_manager
  unfolding lookup owned lists tally
  new_manager-Inv = record {
    entries_ok = λ k e found. cc;
    unique = tt;
    listed = λ k s. refl;
    counted = λ k s. refl;
    distinct = λ s. tt;
  }

module _ {K V : Type 0} ⦃ek : Eq K⦄ where
  pub Distinct-if :
      (b : Bool) (xs ys : List (K × V))
      → Distinct xs
      → Distinct ys
      → Distinct (if b then xs else ys)
  Distinct-if true xs ys dx dy = dx
  Distinct-if false xs ys dx dy = dy

module _ {S K R : Type 0} ⦃es : Eq S⦄ ⦃ek : Eq K⦄ ⦃er : Eq R⦄ (key : AclRule → K) where
  -- Forgetting a route of a session and taking its key from the session.
  pub dropped-Inv :
      (r : R) (s : S) (k : K) (m : Manager S K R)
      → lookup r (routes m s) ≡ some k
      → Inv key m
      → Inv key (remove_owner k s (put_routes s (delete r (routes m s)) m)).0
  dropped-Inv r s k m found inv =
      let m₁ = put_routes s (delete r (routes m s)) m in
      let owned₁ = owned-put_routes s (delete r (routes m s)) m in
      let routes₂ : (s' : S)
          → routes (remove_owner k s m₁).0 s'
            ≡ (if beq s s' then delete r (routes m s) else routes m s') =
        λ s'.
          ap (λ t. or_empty (lookup s' t)) (session_routes-remove_owner k s m₁)
          ∙ routes-put_routes s (delete r (routes m s)) m s' in
      record {
        entries_ok =
            remove_owner-EntriesOk key k s m₁
              (put_routes-EntriesOk key s (delete r (routes m s)) m inv.entries_ok);
        unique =
            remove_owner-Unique k s m₁ (put_routes-Unique s (delete r (routes m s)) m inv.unique);
        listed =
            remove_owner-Listed k s m₁ (put_routes-Listed s (delete r (routes m s)) m inv.listed);
        counted = λ k' s'.
            rw (routes₂ s', owned-remove_owner k s m₁ k' s', owned₁ k' s')
              (elim (Bool-cases (beq s s')) [
                | inl hit ↦
                    let same = (es.beq_iff s s').0 hit in
                    rw hit (
                      subst
                        (λ i.
                          owned m k' i - one_if (beq k k' && true)
                          ≡ tally k' (delete r (routes m s)))
                        same
                        (rw
                          (
                            inv.counted k' s,
                            sym (tally-delete r k k' (routes m s) (inv.distinct s) found),
                          )
                          (ground arith)))
                | inr miss ↦ rw miss (ground (arith, inv.counted k' s'))
              ]);
        distinct = λ s'. rw (routes₂ s') (
            Distinct-if (beq s s') (delete r (routes m s)) (routes m s')
              (delete-Distinct r (routes m s) (inv.distinct s)) (inv.distinct s'));
      }

  pub remove_route-Inv :
      (r : R) (s : S) (m : Manager S K R) → Inv key m → Inv key (remove_route r s m).0
  remove_route-Inv r s m inv = elim (Option-cases (lookup r (routes m s))) [
    | inl absent ↦ subst (Inv key) (sym (remove_route_absent r s m absent)) inv
    | inr (k, found) ↦
        subst (Inv key) (sym (remove_route_found r s k m found)) (dropped-Inv r s k m found inv)
  ]

  -- The manager after `addOwner` and `rememberRoute`.
  abbrev pub added : R → AclRule → S → Manager S K R → Manager S K R
  added r acl s m = remember_route r (key acl) s (add_owner (key acl) acl (family_of acl) s m).0

  pub routes-added :
      (r : R) (acl : AclRule) (s : S) (m : Manager S K R) (s' : S)
      → routes (added r acl s m) s'
        ≡ (if beq s s' then insert r (key acl) (routes m s) else routes m s')
  routes-added r acl s m s' =
      routes-remember_route r (key acl) s (add_owner (key acl) acl (family_of acl) s m).0 s'
      ∙ rw (session_routes-add_owner (key acl) acl (family_of acl) s m)

  -- Taking in a route that is not there yet.
  pub added-Inv :
      (r : R) (acl : AclRule) (s : S) (m : Manager S K R)
      → lookup r (routes m s) ≡ none
      → Inv key m
      → Inv key (added r acl s m)
  unfolding remember_route owned lists
  added-Inv r acl s m absent inv = record {
    entries_ok = add_owner-EntriesOk key acl s m inv.entries_ok;
    unique = add_owner-Unique (key acl) acl (family_of acl) s m inv.unique;
    listed = add_owner-Listed key acl s m inv.listed;
    counted = λ k' s'.
        owned-add_owner (key acl) acl (family_of acl) s m k' s'
        ∙ rw (routes-added r acl s m s') (elim (Bool-cases (beq s s')) [
          | inl hit ↦
              let same = (es.beq_iff s s').0 hit in
              rw hit (
                subst
                  (λ i.
                    owned m k' i + one_if (beq (key acl) k' && true)
                    ≡ tally k' (insert r (key acl) (routes m s)))
                  same
                  (rw (inv.counted k' s, tally-insert r (key acl) k' (routes m s) absent)
                    (ground arith)))
          | inr miss ↦ rw miss (ground (arith, inv.counted k' s'))
        ]);
    distinct = λ s'. rw (routes-added r acl s m s') (
        Distinct-if (beq s s') (insert r (key acl) (routes m s)) (routes m s')
          (insert-Distinct r (key acl) (routes m s) (inv.distinct s)) (inv.distinct s'));
  }
