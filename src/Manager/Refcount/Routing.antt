-- ===== src/Manager/Refcount/Routing.antt =====
-- The methods that keep the map from NLRI identities to keys.
use flowspec_vpp_agent.Prelude.{
  ◌≡◌, ◌≢◌, refl, ◌∙◌, ap, Bool, true, false, List, [], ◌∷◌, none, some, if◌then◌else◌, Bool-cases,
  Option-cases, inl, inr, Eq, beq, beq_refl, arith,
}
use flowspec_vpp_agent.Data.Assoc.{lookup, insert, delete, lookup-insert, lookup-delete}
use flowspec_vpp_agent.Data.Assoc.Distinct.{delete_absent}
use flowspec_vpp_agent.Vpp.Types.{AclFamily, AclRule}
use flowspec_vpp_agent.Manager.State.{Manager, or_empty, routes}
use flowspec_vpp_agent.Manager.Refcount.{
  remove_owner, remove_key, flag, route_key, remember_route, put_routes, forget_route, remove_route,
  replace_route,
}
use flowspec_vpp_agent.Manager.Refcount.Owners.{owned, lists, EntriesOk, Listed}
use flowspec_vpp_agent.Manager.Refcount.Removing.{session_routes-remove_owner}

module _ {S K R : Type 0} where
  flag-fst : (f : AclFamily) (p : Manager S K R × Bool) → (flag f p).0 ≡ p.0
  flag-fst f (m, true) = refl
  flag-fst f (m, false) = refl

module _ {S K R : Type 0} ⦃es : Eq S⦄ ⦃ek : Eq K⦄ ⦃er : Eq R⦄ where
  pub routes-put_routes :
      (s : S) (rs : List (R × K)) (m : Manager S K R) (s' : S)
      → routes (put_routes s rs m) s' ≡ (if beq s s' then rs else routes m s')
  routes-put_routes s [] m s' = ground (arith, lookup-delete s s' m.session_routes)
  routes-put_routes s (r ∷ rs) m s' = ground (arith, lookup-insert s s' (r ∷ rs) m.session_routes)

  pub routes-remember_route :
      (r : R) (k : K) (s : S) (m : Manager S K R) (s' : S)
      → routes (remember_route r k s m) s'
        ≡ (if beq s s' then insert r k (routes m s) else routes m s')
  unfolding remember_route
  routes-remember_route r k s m s' =
      ground (arith, lookup-insert s s' (insert r k (routes m s)) m.session_routes)

  forget_route-eq :
      (r : R) (s : S) (k : K) (m : Manager S K R)
      → lookup r (routes m s) ≡ some k
      → forget_route r s k m ≡ put_routes s (delete r (routes m s)) m
  unfolding forget_route
  forget_route-eq r s k m found = rw (found, forget_route) (rw (beq_refl k))

  remove_key-eq :
      (k : K) (s : S) (m : Manager S K R) → (remove_key k s m).0 ≡ (remove_owner k s m).0
  unfolding remove_key remove_owner
  remove_key-eq k s m = elim (Option-cases (lookup k m.entries)) [
    | inl absent ↦ rw (absent, remove_key, remove_owner)
    | inr (e, found) ↦ rw (found, remove_key) (flag-fst e.family (remove_owner k s m))
  ]

  -- The manager after `remove_route`, with the mapping and without.
  pub remove_route_absent :
      (r : R) (s : S) (m : Manager S K R)
      → lookup r (routes m s) ≡ none
      → (remove_route r s m).0 ≡ m
  unfolding remove_route route_key
  remove_route_absent r s m absent = rw (absent, remove_route)

  pub remove_route_found :
      (r : R) (s : S) (k : K) (m : Manager S K R)
      → lookup r (routes m s) ≡ some k
      → (remove_route r s m).0 ≡ (remove_owner k s (put_routes s (delete r (routes m s)) m)).0
  unfolding remove_route route_key
  remove_route_found r s k m found =
      rw (found, remove_route)
        (remove_key-eq k s (forget_route r s k m)
          ∙ ap (λ n. (remove_owner k s n).0) (forget_route-eq r s k m found))

  pub routes-remove_route :
      (r : R) (s : S) (m : Manager S K R) (s' : S)
      → routes (remove_route r s m).0 s' ≡ (if beq s s' then delete r (routes m s) else routes m s')
  routes-remove_route r s m s' = elim (Option-cases (lookup r (routes m s))) [
    | inl absent ↦
        rw (remove_route_absent r s m absent, delete_absent r (routes m s) absent)
          (ground (arith, es.beq_iff s s'))
    | inr (k, found) ↦
        ap (λ n. routes n s') (remove_route_found r s k m found)
        ∙ ap (λ t. or_empty (lookup s' t))
            (session_routes-remove_owner k s (put_routes s (delete r (routes m s)) m))
        ∙ routes-put_routes s (delete r (routes m s)) m s'
  ]

  pub owned-put_routes :
      (s : S) (rs : List (R × K)) (m : Manager S K R) (k : K) (s' : S)
      → owned (put_routes s rs m) k s' ≡ owned m k s'
  unfolding owned
  owned-put_routes s [] m k s' = refl
  owned-put_routes s (r ∷ rs) m k s' = refl

  pub put_routes-EntriesOk :
      (key : AclRule → K) (s : S) (rs : List (R × K)) (m : Manager S K R)
      → EntriesOk key m
      → EntriesOk key (put_routes s rs m)
  put_routes-EntriesOk key s [] m h = h
  put_routes-EntriesOk key s (r ∷ rs) m h = h

  pub put_routes-Listed :
      (s : S) (rs : List (R × K)) (m : Manager S K R) → Listed m → Listed (put_routes s rs m)
  unfolding lists owned
  put_routes-Listed s [] m h = h
  put_routes-Listed s (r ∷ rs) m h = h

  -- Where a route has no key yet, or another one, `replace_route` is `remove_route`.
  pub replace_route-eq :
      (r : R) (k : K) (s : S) (m : Manager S K R)
      → lookup r (routes m s) ≢ some k
      → replace_route r k s m ≡ remove_route r s m
  unfolding replace_route remove_route route_key
  replace_route-eq r k s m other = elim (Option-cases (lookup r (routes m s))) [
    | inl absent ↦ rw (absent, replace_route, remove_route)
    | inr (old, found) ↦ elim (Bool-cases (beq old k)) [
      | inl hit ↦ absurd (other (found ∙ ap some ((ek.beq_iff old k).0 hit)))
      | inr miss ↦ rw (found, replace_route) (rw miss)
    ]
  ]
