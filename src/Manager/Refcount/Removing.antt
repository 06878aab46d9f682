-- ===== src/Manager/Refcount/Removing.antt =====
-- What `remove_owner` does.
use flowspec_vpp_agent.Prelude.{
  ℕ, ◌-◌, ◌≡◌, ◌≢◌, refl, ◌∙◌, Bool, not, ◌&&◌, ◌||◌, List, none, some, ◌==◌, if◌then◌else◌,
  Bool-cases, Option-cases, inl, inr, Eq, beq, arith,
}
use flowspec_vpp_agent.Data.Assoc.{lookup, insert, delete, lookup-insert, lookup-delete}
use flowspec_vpp_agent.Vpp.Types.{AclRule}
use flowspec_vpp_agent.Manager.State.{Entry, Manager, or_zero}
use flowspec_vpp_agent.Manager.Refcount.{drop_rule, release, remove_owner}
use flowspec_vpp_agent.Manager.Refcount.Owners.{
  lookup_empty, lookup_nil, both, owned, lists, EntriesOk, Listed,
}
use flowspec_vpp_agent.Manager.Refcount.Adding.{one_if}
use flowspec_vpp_agent.Manager.Refcount.Settling.{owned-settle, settle-EntriesOk, lists-settle}

module _ {S : Type 0} ⦃es : Eq S⦄ where
  -- The owners that `release` leaves.
  abbrev released : S → ℕ → List (S × ℕ) → List (S × ℕ)
  released s n owners = if n == 1 then delete s owners else insert s (n - 1) owners

  lookup-released :
      (s : S) (n : ℕ) (owners : List (S × ℕ)) (s' : S)
      → or_zero (lookup s owners) ≡ n
      → or_zero (lookup s' (released s n owners)) ≡ or_zero (lookup s' owners) - one_if (beq s s')
  lookup-released s n owners s' h =
      ground (arith, lookup-delete s s' owners, lookup-insert s s' (n - 1) owners, es.beq_iff s s')

  released-positive :
      (s : S) (n : ℕ) (owners : List (S × ℕ))
      → n ≢ 0
      → ((q : S) (c : ℕ) → lookup q owners ≡ some c → c ≢ 0)
      → (q : S) (c : ℕ) → lookup q (released s n owners) ≡ some c
      → c ≢ 0
  released-positive s n owners nz h q c found =
      ground (arith, lookup-delete s q owners, lookup-insert s q (n - 1) owners, h q c)

module _ {S K R : Type 0} ⦃es : Eq S⦄ ⦃ek : Eq K⦄ where
  absent-owned :
      (key : K) (s : S) (m : Manager S K R) (k : K) (s' : S)
      → lookup key m.entries ≡ none
      → owned m k s' ≡ owned m k s' - one_if (both key s k s')
  unfolding owned
  absent-owned key s m k s' absent = ground (arith, ek.beq_iff key k)

  owned-found :
      (key : K) (s : S) (e : Entry S) (m : Manager S K R)
      → lookup key m.entries ≡ some e
      → owned m key s ≡ or_zero (lookup s e.owners)
  unfolding owned
  owned-found key s e m found = rw found

  release-owned :
      (key : K) (s : S) (e : Entry S) (m : Manager S K R) (k : K) (s' : S)
      → lookup key m.entries ≡ some e
      → owned (release key s e (or_zero (lookup s e.owners)) m).0 k s'
        ≡ owned m k s' - one_if (both key s k s')
  unfolding owned release
  release-owned key s e m k s' found = elim (Bool-cases (or_zero (lookup s e.owners) == 0)) [
    | inl zero ↦ rw zero (ground (arith, found, ek.beq_iff key k, es.beq_iff s s'))
    | inr pos ↦ rw pos (
        owned-settle key (record e { owners = released s (or_zero (lookup s e.owners)) e.owners })
          (record m { session_rules = drop_rule key s (not (or_zero (lookup s e.owners) == 1)) m })
          k s'
        ∙ ground (
          arith,
          lookup-released s (or_zero (lookup s e.owners)) e.owners s' refl,
          found,
          ek.beq_iff key k,
        ))
  ]

  -- `remove_owner` takes one from the count of its key and session, which stays 0 if it is 0, and
  -- changes no other count.
  pub owned-remove_owner :
      (key : K) (s : S) (m : Manager S K R) (k : K) (s' : S)
      → owned (remove_owner key s m).0 k s' ≡ owned m k s' - one_if (both key s k s')
  unfolding remove_owner
  owned-remove_owner key s m k s' = elim (Option-cases (lookup key m.entries)) [
    | inl absent ↦ rw (absent, remove_owner) (absent-owned key s m k s' absent)
    | inr (e, found) ↦ rw (found, remove_owner) (release-owned key s e m k s' found)
  ]

  -- Only that key and session is unlisted, and only when its last route goes.
  lists-drop_rule :
      (key : K) (s : S) (left : Bool) (m : Manager S K R) (k : K) (s' : S)
      → lists (record m { session_rules = drop_rule key s left m }) k s'
        ≡ (lists m k s' && (left || not (both key s k s')))
  unfolding lists drop_rule
  lists-drop_rule key s left m k s' = elim (Option-cases (lookup s m.session_rules)) [
    | inl absent ↦
        rw (absent, drop_rule)
          (ground (arith, absent, lookup_nil {V = Unit {0}} k, es.beq_iff s s'))
    | inr (sr, found) ↦
        rw (found, drop_rule)
          (ground (
            arith,
            found,
            lookup_nil {V = Unit {0}} k,
            lookup_empty k (delete key sr),
            lookup-delete key k sr,
            lookup-delete s s' m.session_rules,
            lookup-insert s s' (delete key sr) m.session_rules,
            es.beq_iff s s',
          ))
  ]

  lists-release :
      (key : K) (s : S) (e : Entry S) (n : ℕ) (m : Manager S K R) (k : K) (s' : S)
      → lists (release key s e n m).0 k s'
        ≡ (lists m k s' && (n == 0 || not (n == 1) || not (both key s k s')))
  unfolding release
  lists-release key s e n m k s' = elim (Bool-cases (n == 0)) [
    | inl zero ↦ rw zero (ground arith)
    | inr pos ↦ rw pos (
        lists-settle key (record e { owners = released s n e.owners })
          (record m { session_rules = drop_rule key s (not (n == 1)) m }) k s'
        ∙ lists-drop_rule key s (not (n == 1)) m k s')
  ]

  release-Listed :
      (key : K) (s : S) (e : Entry S) (m : Manager S K R)
      → lookup key m.entries ≡ some e
      → Listed m
      → Listed (release key s e (or_zero (lookup s e.owners)) m).0
  release-Listed key s e m found h k s' =
      lists-release key s e (or_zero (lookup s e.owners)) m k s'
      ∙ rw (release-owned key s e m k s' found)
          (ground (arith, h k s', owned-found key s e m found, ek.beq_iff key k, es.beq_iff s s'))

  release-EntriesOk :
      (key : AclRule → K) (k : K) (s : S) (e : Entry S) (m : Manager S K R)
      → lookup k m.entries ≡ some e
      → EntriesOk key m
      → EntriesOk key (release k s e (or_zero (lookup s e.owners)) m).0
  unfolding release
  release-EntriesOk key k s e m found h = elim (Bool-cases (or_zero (lookup s e.owners) == 0)) [
    | inl zero ↦ rw zero h
    | inr pos ↦
        let ok = h k e found in
        rw pos (
          settle-EntriesOk key k
            (record e { owners = released s (or_zero (lookup s e.owners)) e.owners })
            (record m { session_rules = drop_rule k s (not (or_zero (lookup s e.owners) == 1)) m })
            h
            (λ some_left. record {
              has_owners = record {
                some_owner = some_left;
                positive =
                    released-positive s (or_zero (lookup s e.owners)) e.owners (ground arith)
                      ok.has_owners.positive;
              };
              keyed = ok.keyed;
              filed = ok.filed;
            }))
  ]

  pub remove_owner-Listed :
      (key : K) (s : S) (m : Manager S K R) → Listed m → Listed (remove_owner key s m).0
  unfolding remove_owner
  remove_owner-Listed key s m h = elim (Option-cases (lookup key m.entries)) [
    | inl absent ↦ rw (absent, remove_owner) h
    | inr (e, found) ↦ rw (found, remove_owner) (release-Listed key s e m found h)
  ]

  pub remove_owner-EntriesOk :
      (key : AclRule → K) (k : K) (s : S) (m : Manager S K R)
      → EntriesOk key m
      → EntriesOk key (remove_owner k s m).0
  unfolding remove_owner
  remove_owner-EntriesOk key k s m h = elim (Option-cases (lookup k m.entries)) [
    | inl absent ↦ rw (absent, remove_owner) h
    | inr (e, found) ↦ rw (found, remove_owner) (release-EntriesOk key k s e m found h)
  ]

  pub session_routes-remove_owner :
      (key : K) (s : S) (m : Manager S K R)
      → (remove_owner key s m).0.session_routes ≡ m.session_routes
  unfolding remove_owner
  session_routes-remove_owner key s m = ground arith
