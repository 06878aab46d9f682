-- ===== src/Manager/Refcount/Owners.antt =====
-- How often a session owns a key, and what a write to the entries does to that.
use flowspec_vpp_agent.Prelude.{
  ℕ, ◌≡◌, ◌≢◌, refl, Bool, true, false, not, ◌&&◌, List, [], ◌∷◌, Option, none, some, ◌==◌,
  if◌then◌else◌, Eq, beq, arith,
}
use flowspec_vpp_agent.Data.Assoc.{lookup, insert, delete, lookup-insert, lookup-delete}
use flowspec_vpp_agent.Vpp.Types.{AclRule}
use flowspec_vpp_agent.Manager.State.{Entry, Manager, or_zero, is_empty, rules, family_of}

abbrev pub is_some {ℓ} : {A : Type ℓ} → Option A → Bool
is_some none = false
is_some (some a) = true

module _ {S : Type 0} ⦃es : Eq S⦄ where
  abbrev pub owned_in : Option (Entry S) → S → ℕ
  owned_in none s = 0
  owned_in (some e) s = or_zero (lookup s e.owners)

  -- An entry has owners, each of them for at least one route.
  pub record HasOwners (e : Entry S) : Type 0 where
    pub some_owner : is_empty e.owners ≡ false
    pub positive : (s : S) (n : ℕ) → lookup s e.owners ≡ some n → n ≢ 0

  pub lookup_nil : {V : Type 0} (s : S) → lookup {V = V} s [] ≡ none
  unfolding lookup
  lookup_nil s = refl

  pub lookup_empty : {V : Type 0} (s : S) (m : List (S × V)) → is_empty m ≡ true → lookup s m ≡ none
  unfolding lookup
  lookup_empty s [] h = refl
  lookup_empty s (o ∷ m) h = cc

  pub is_empty-insert :
      {V : Type 0} (s : S) (v : V) (m : List (S × V)) → is_empty (insert s v m) ≡ false
  unfolding insert
  is_empty-insert s v [] = refl
  is_empty-insert s v ((q, w) ∷ m) = ground arith

module _ {K : Type 0} ⦃ek : Eq K⦄ {S : Type 0} ⦃es : Eq S⦄ where
  abbrev pub both : K → S → K → S → Bool
  both k s k' s' = beq k k' && beq s s'

  pub owned_in-insert :
      (k k' : K) (e : Entry S) (entries : List (K × Entry S)) (s : S)
      → owned_in (lookup k' (insert k e entries)) s
        ≡ (if beq k k' then or_zero (lookup s e.owners) else owned_in (lookup k' entries) s)
  owned_in-insert k k' e entries s = ground (arith, lookup-insert k k' e entries)

  pub owned_in-delete :
      (k k' : K) (entries : List (K × Entry S)) (s : S)
      → owned_in (lookup k' (delete k entries)) s
        ≡ (if beq k k' then 0 else owned_in (lookup k' entries) s)
  owned_in-delete k k' entries s = ground (arith, lookup-delete k k' entries)

module _ {S K R : Type 0} ⦃es : Eq S⦄ ⦃ek : Eq K⦄ where
  unfoldable pub owned : Manager S K R → K → S → ℕ
  owned m k s = owned_in (lookup k m.entries) s

  -- The session lists the key among its rules.
  unfoldable pub lists : Manager S K R → K → S → Bool
  lists m k s = is_some (lookup k (rules m s))

module _ {S K R : Type 0} ⦃es : Eq S⦄ ⦃ek : Eq K⦄ where
  -- A session lists exactly the keys that it owns.
  abbrev pub Listed : Manager S K R → Type 0
  Listed m = (k : K) (s : S) → lists m k s ≡ not (owned m k s == 0)

module _ {S K : Type 0} ⦃es : Eq S⦄ (key : AclRule → K) where
  -- An entry as it stands in the map under a key.
  pub record EntryOk (k : K) (e : Entry S) : Type 0 where
    pub has_owners : HasOwners e
    pub keyed : key e.acl ≡ k
    pub filed : e.family ≡ family_of e.acl

module _ {S K R : Type 0} ⦃es : Eq S⦄ ⦃ek : Eq K⦄ (key : AclRule → K) where
  abbrev pub EntriesOk : Manager S K R → Type 0
  EntriesOk m = (k : K) (e : Entry S) → lookup k m.entries ≡ some e → EntryOk key k e
