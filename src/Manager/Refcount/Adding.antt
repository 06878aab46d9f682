-- ===== src/Manager/Refcount/Adding.antt =====
-- What `add_owner` does.
use flowspec_vpp_agent.Prelude.{
  ℕ, ◌+◌, ◌≡◌, ◌≢◌, refl, ◌∙◌, sym, subst, Bool, false, not, ◌||◌, [], Option, none, some,
  if◌then◌else◌, Bool-cases, Option-cases, some_eq, inl, inr, Eq, beq, arith,
}
use flowspec_vpp_agent.Data.Assoc.{lookup, insert, lookup-insert}
use flowspec_vpp_agent.Vpp.Types.{AclFamily, AclRule}
use flowspec_vpp_agent.Manager.State.{Entry, Manager, or_zero, is_empty, rules, family_of}
use flowspec_vpp_agent.Manager.Refcount.{new_entry, own, add_owner}
use flowspec_vpp_agent.Manager.Refcount.Owners.{
  is_some, owned_in, HasOwners, is_empty-insert, both, owned, lists, EntryOk, EntriesOk, Listed,
}

abbrev pub one_if : Bool → ℕ
one_if b = if b then 1 else 0

abbrev pub base_entry : {S : Type 0} → AclRule → AclFamily → Option (Entry S) → Entry S
base_entry acl fam none = new_entry acl fam
base_entry acl fam (some e) = e

module _ {S : Type 0} ⦃es : Eq S⦄ (acl : AclRule) (fam : AclFamily) (s s' : S) where
  own-owned :
      (o : Option (Entry S))
      → owned_in (some (own (base_entry acl fam o) s)) s' ≡ owned_in o s' + one_if (beq s s')
  unfolding lookup
  own-owned none = ground (arith, lookup-insert {V = ℕ} s s' 1 [])
  own-owned (some e) =
      ground (arith, lookup-insert s s' (or_zero (lookup s e.owners) + 1) e.owners, es.beq_iff s s')

module _ {S K R : Type 0} ⦃es : Eq S⦄ ⦃ek : Eq K⦄ where
  -- The entries after the call.
  pub lookup-add_owner :
      (key : K) (acl : AclRule) (fam : AclFamily) (s : S) (m : Manager S K R) (k : K)
      → lookup k (add_owner key acl fam s m).0.entries ≡ (
          if beq key k
          then some (own (base_entry acl fam (lookup key m.entries)) s)
          else lookup k m.entries)
  unfolding add_owner
  lookup-add_owner key acl fam s m k = elim (Option-cases (lookup key m.entries)) [
    | inl absent ↦
        rw (absent, add_owner) (lookup-insert key k (own (new_entry acl fam) s) m.entries)
    | inr (e, found) ↦ rw (found, add_owner) (lookup-insert key k (own e s) m.entries)
  ]

  -- `add_owner` adds one to the count of its key and session and changes no other count.
  pub owned-add_owner :
      (key : K) (acl : AclRule) (fam : AclFamily) (s : S) (m : Manager S K R) (k : K) (s' : S)
      → owned (add_owner key acl fam s m).0 k s' ≡ owned m k s' + one_if (both key s k s')
  unfolding owned
  owned-add_owner key acl fam s m k s' =
      rw (lookup-add_owner key acl fam s m k) (elim (Bool-cases (beq key k)) [
        | inl hit ↦
            rw hit (own-owned acl fam s s' (lookup key m.entries) ∙ rw ((ek.beq_iff key k).0 hit))
        | inr miss ↦ rw miss (omega arith)
      ])

  session_rules-add_owner :
      (key : K) (acl : AclRule) (fam : AclFamily) (s : S) (m : Manager S K R)
      → (add_owner key acl fam s m).0.session_rules
        ≡ insert s (insert key tt (rules m s)) m.session_rules
  unfolding add_owner
  session_rules-add_owner key acl fam s m = ground arith

  -- Only that key and session are listed anew.
  pub lists-add_owner :
      (key : K) (acl : AclRule) (fam : AclFamily) (s : S) (m : Manager S K R) (k : K) (s' : S)
      → lists (add_owner key acl fam s m).0 k s' ≡ (both key s k s' || lists m k s')
  unfolding lists
  lists-add_owner key acl fam s m k s' = rw (session_rules-add_owner key acl fam s m) (
      ground (
        arith,
        lookup-insert s s' (insert key tt (rules m s)) m.session_rules,
        lookup-insert key k tt (rules m s),
        es.beq_iff s s',
      ))

  pub session_routes-add_owner :
      (key : K) (acl : AclRule) (fam : AclFamily) (s : S) (m : Manager S K R)
      → (add_owner key acl fam s m).0.session_routes ≡ m.session_routes
  unfolding add_owner
  session_routes-add_owner key acl fam s m = ground arith

  -- The call says whether the key is new, when no entry stands without owners.
  pub dirty-add_owner :
      (key : K) (acl : AclRule) (fam : AclFamily) (s : S) (m : Manager S K R)
      → ((e : Entry S) → lookup key m.entries ≡ some e → is_empty e.owners ≡ false)
      → (add_owner key acl fam s m).1 ≡ not (is_some (lookup key m.entries))
  unfolding add_owner
  dirty-add_owner key acl fam s m h = elim (Option-cases (lookup key m.entries)) [
    | inl absent ↦ rw (absent, add_owner)
    | inr (e, found) ↦ rw (found, add_owner) (h e found)
  ]

module _ {S : Type 0} ⦃es : Eq S⦄ where
  own-HasOwners :
      (e : Entry S) (s : S)
      → ((q : S) (n : ℕ) → lookup q e.owners ≡ some n → n ≢ 0)
      → HasOwners (own e s)
  own-HasOwners e s h = record {
    some_owner = is_empty-insert s (or_zero (lookup s e.owners) + 1) e.owners;
    positive = λ q n found.
        let found' = sym (lookup-insert s q (or_zero (lookup s e.owners) + 1) e.owners) ∙ found in
        elim (Bool-cases (beq s q)) [
          | inl hit ↦ ground (arith, rw hit at found')
          | inr miss ↦ h q n (rw miss at found')
        ];
  }

module _ {S K : Type 0} ⦃es : Eq S⦄ (key : AclRule → K) where
  base-EntryOk :
      (acl : AclRule) (s : S) (o : Option (Entry S))
      → ((e : Entry S) → o ≡ some e → EntryOk key (key acl) e)
      → EntryOk key (key acl) (own (base_entry acl (family_of acl) o) s)
  base-EntryOk acl s none h = record {
    has_owners = own-HasOwners (new_entry acl (family_of acl)) s (λ q n found. unfold lookup in cc);
    keyed = refl;
    filed = refl;
  }
  base-EntryOk acl s (some e) h =
      let ok = h e refl in
      record {
        has_owners = own-HasOwners e s ok.has_owners.positive;
        keyed = ok.keyed;
        filed = ok.filed;
      }

module _ {S K R : Type 0} ⦃es : Eq S⦄ ⦃ek : Eq K⦄ (key : AclRule → K) where
  pub add_owner-EntriesOk :
      (acl : AclRule) (s : S) (m : Manager S K R)
      → EntriesOk key m
      → EntriesOk key (add_owner (key acl) acl (family_of acl) s m).0
  add_owner-EntriesOk acl s m h k e found =
      let found' = sym (lookup-add_owner (key acl) acl (family_of acl) s m k) ∙ found in
      elim (Bool-cases (beq (key acl) k)) [
        | inl hit ↦
            let same : own (base_entry acl (family_of acl) (lookup (key acl) m.entries)) s ≡ e =
              some_eq (rw hit at found') in
            subst (λ i. EntryOk key i e) ((ek.beq_iff (key acl) k).0 hit)
              (subst (EntryOk key (key acl)) same
                (base-EntryOk key acl s (lookup (key acl) m.entries) (h (key acl))))
        | inr miss ↦ h k e (rw miss at found')
      ]

  pub add_owner-Listed :
      (acl : AclRule) (s : S) (m : Manager S K R)
      → Listed m
      → Listed (add_owner (key acl) acl (family_of acl) s m).0
  add_owner-Listed acl s m h k s' =
      lists-add_owner (key acl) acl (family_of acl) s m k s'
      ∙ rw (owned-add_owner (key acl) acl (family_of acl) s m k s') (ground (arith, h k s'))
