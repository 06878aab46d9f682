-- ===== src/Manager/Handlers/Desired.antt =====
-- What `desired` holds.
use Prim.Native.String.{String}
use mathlib.Core.List.{Memᴰ}
use Memᴰ.{head, tail}
use flowspec_vpp_agent.Prelude.{
  ℕ, ◌<◌, ◌≡◌, refl, ◌∙◌, sym, ap, subst, Bool, true, false, List, [], ◌∷◌, none, some, Bool-cases,
  Option-cases, some_eq, inl, inr, Eq, beq, beq_refl, string_eq, arith,
}
use flowspec_vpp_agent.Data.Assoc.{lookup}
use flowspec_vpp_agent.Data.Assoc.Distinct.{Distinct, tally_pos, tally-some}
use flowspec_vpp_agent.Data.Sort
use flowspec_vpp_agent.Data.Sort.Members.{Memᴰ-cons, sort-Memᴰ, Memᴰ-sort}
use flowspec_vpp_agent.Vpp.Types.{AclFamily, acl_ipv4, acl_ipv6, AclRule}
use flowspec_vpp_agent.Manager.State.{Entry, Manager, is_empty, routes, family_of}
use flowspec_vpp_agent.Manager.Refcount.Owners.{owned, EntryOk}
use flowspec_vpp_agent.Manager.Invariant.{Inv}
use flowspec_vpp_agent.Manager.Handlers.{same_family, live, family_keys, acls, desired}
use flowspec_vpp_agent.Manager.Handlers.Advertised.{view}

module _ {S K : Type 0} ⦃ek : Eq K⦄ where
  -- An entry of the map that `desired` takes.
  record Taken (f : AclFamily) (m : List (K × Entry S)) (k : K) : Type 0 where
    entry : Entry S
    found : lookup k m ≡ some entry
    is_live : live f entry ≡ true

  later-Taken :
      (f : AclFamily) (j k : K) (e : Entry S) (m : List (K × Entry S))
      → Distinct ((j, e) ∷ m)
      → Taken f m k
      → Taken f ((j, e) ∷ m) k
  unfolding lookup
  later-Taken f j k e m d t = record {
    entry = t.entry;
    found = ground (arith, ek.beq_iff j k, d.0, t.found);
    is_live = t.is_live;
  }

  family_keys_sound :
      (f : AclFamily) (m : List (K × Entry S)) (k : K)
      → Distinct m
      → Memᴰ k (family_keys f m)
      → Taken f m k
  unfolding family_keys lookup
  family_keys_sound f [] k d h = elim h [ ]
  family_keys_sound f ((j, e) ∷ m) k d h = elim (Bool-cases (live f e)) [
    | inl l ↦ elim (Memᴰ-cons k j (family_keys f m) (rw l at h)) [
      | inl same ↦ record { entry = e; found = rw (same, beq_refl j); is_live = l }
      | inr t ↦ later-Taken f j k e m d (family_keys_sound f m k d.1 t)
    ]
    | inr l ↦ later-Taken f j k e m d (family_keys_sound f m k d.1 (rw l at h))
  ]

  family_keys_complete :
      (f : AclFamily) (m : List (K × Entry S)) (k : K) (e : Entry S)
      → lookup k m ≡ some e
      → live f e ≡ true
      → Memᴰ k (family_keys f m)
  unfolding family_keys lookup
  family_keys_complete f [] k e found l = cc
  family_keys_complete f ((j, e') ∷ m) k e found l = elim (Bool-cases (beq j k)) [
    | inl hit ↦
        let same : e' ≡ e = some_eq (rw hit at found) in
        rw (same, l) (head (sym ((ek.beq_iff j k).0 hit)))
    | inr miss ↦
        let rest = family_keys_complete f m k e (rw miss at found) l in
        elim (Bool-cases (live f e')) [ inl l' ↦ rw l' (tail rest) | inr l' ↦ rw l' rest ]
  ]

  acls_sound :
      (m : List (K × Entry S)) (ks : List K) (a : AclRule)
      → Memᴰ a (acls m ks)
      → (k : K) × (e : Entry S) × Memᴰ k ks × (lookup k m ≡ some e) × (e.acl ≡ a)
  unfolding acls
  acls_sound m [] a h = elim h [ ]
  acls_sound m (k ∷ ks) a h = elim (Option-cases (lookup k m)) [
    | inl absent ↦
        let (i, e, t, found, same) = acls_sound m ks a (rw (absent, acls) at h) in
        (i, e, tail t, found, same)
    | inr (e, found) ↦ elim (Memᴰ-cons a e.acl (acls m ks) (rw (found, acls) at h)) [
      | inl same ↦ (k, e, head refl, found, sym same)
      | inr u ↦ let (i, e', t, found', same) = acls_sound m ks a u in (i, e', tail t, found', same)
    ]
  ]

  acls_complete :
      (m : List (K × Entry S)) (ks : List K) (k : K) (e : Entry S)
      → Memᴰ k ks
      → lookup k m ≡ some e
      → Memᴰ (e.acl) (acls m ks)
  unfolding acls
  acls_complete m [] k e h found = elim h [ ]
  acls_complete m (j ∷ ks) k e (head same) found = rw (sym same) (rw (found, acls) (head refl))
  acls_complete m (j ∷ ks) k e (tail t) found = elim (Option-cases (lookup j m)) [
    | inl absent ↦ rw (absent, acls) (acls_complete m ks k e t found)
    | inr (e', found') ↦ rw (found', acls) (tail (acls_complete m ks k e t found))
  ]

same_family-eq : (f g : AclFamily) → same_family f g ≡ true → f ≡ g
same_family-eq acl_ipv4 acl_ipv4 h = refl
same_family-eq acl_ipv6 acl_ipv6 h = refl
same_family-eq acl_ipv4 acl_ipv6 h = cc
same_family-eq acl_ipv6 acl_ipv4 h = cc

pub same_family_refl : (f : AclFamily) → same_family f f ≡ true
same_family_refl acl_ipv4 = refl
same_family_refl acl_ipv6 = refl

module _ {S K : Type 0} ⦃es : Eq S⦄ ⦃ek : Eq K⦄ (le : K → K → Bool) (key : AclRule → K) where
  -- A session that owns a key has a route that leads to it, and the other way round.
  owned-view :
      (m : Manager S K String) (k : K) (s : S)
      → Inv key m
      → 0 < owned m k s
      → (id : String) × (view m s id ≡ some k)
  owned-view m k s i h = tally-some k (routes m s) (i.distinct s) (rw (i.counted k s) at h)

  view-owned :
      (m : Manager S K String) (k : K) (s : S) (id : String)
      → Inv key m
      → view m s id ≡ some k
      → 0 < owned m k s
  view-owned m k s id i h = rw (i.counted k s) (tally_pos id k (routes m s) h)

  first_owner :
      (owners : List (S × ℕ))
      → is_empty owners ≡ false
      → (s : S) × (n : ℕ) × (lookup s owners ≡ some n)
  unfolding lookup
  first_owner [] h = cc
  first_owner ((s, n) ∷ owners) h = (s, n, rw (beq_refl s))

  some_owner :
      (m : Manager S K String) (k : K) (e : Entry S)
      → lookup k m.entries ≡ some e
      → EntryOk key k e
      → (s : S) × (0 < owned m k s)
  unfolding owned
  some_owner m k e found ok =
      let (s, n, listed) = first_owner e.owners ok.has_owners.some_owner in
      (s, ground (arith, ok.has_owners.positive s n listed))

  no_entry :
      (m : Manager S K String) (k : K) (s : S) → lookup k m.entries ≡ none → ¬ (0 < owned m k s)
  unfolding owned
  no_entry m k s absent h = ground arith

  -- While the tables are in order, an ACL rule that `desired` holds is of the family asked for, and some
  -- session advertises its key.
  pub desired_sound :
      (m : Manager S K String) (f : AclFamily) (a : AclRule)
      → Inv key m
      → Memᴰ a (desired le m f)
      → (family_of a ≡ f) × (s : S) × (id : String) × (view m s id ≡ some (key a))
  unfolding desired live
  desired_sound m f a i h =
      let (k, e, t, found, same) =
        acls_sound m.entries (Sort.sort le (family_keys f m.entries)) a h in
      let taken =
        family_keys_sound f m.entries k i.unique (Memᴰ-sort le k (family_keys f m.entries) t) in
      let alive : live f e ≡ true =
        subst (λ x. live f x ≡ true) (some_eq (sym taken.found ∙ found)) taken.is_live in
      let ok = i.entries_ok k e found in
      let (s, pos) = some_owner m k e found ok in
      let (id, shown) = owned-view m k s i pos in
      (
        ap family_of (sym same) ∙ sym ok.filed ∙ same_family-eq e.family f (ground (arith, alive)),
        s,
        id,
        shown ∙ ap some (sym ok.keyed ∙ ap key same),
      )

  -- While the tables are in order, the rule that stands for an advertised key is in `desired` of its family.
  pub desired_complete :
      (m : Manager S K String) (s : S) (id : String) (k : K)
      → Inv key m
      → view m s id ≡ some k
      → (a : AclRule) × (key a ≡ k) × Memᴰ a (desired le m (family_of a))
  unfolding desired live
  desired_complete m s id k i shown = elim (Option-cases (lookup k m.entries)) [
    | inl absent ↦ absurd (no_entry m k s absent (view-owned m k s id i shown))
    | inr (e, found) ↦
        let ok = i.entries_ok k e found in
        let alive : live (family_of e.acl) e ≡ true =
          rw (ok.filed, same_family_refl (family_of e.acl), ok.has_owners.some_owner) in
        (
          e.acl,
          ok.keyed,
          acls_complete m.entries (Sort.sort le (family_keys (family_of e.acl) m.entries)) k e
              (sort-Memᴰ le k (family_keys (family_of e.acl) m.entries)
                (family_keys_complete (family_of e.acl) m.entries k e found alive))
              found,
        )
  ]
