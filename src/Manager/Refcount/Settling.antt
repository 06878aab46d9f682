-- ===== src/Manager/Refcount/Settling.antt =====
-- What writing an entry back, or deleting it with its last owner, does.
use flowspec_vpp_agent.Prelude.{
  ℕ, ◌≡◌, ◌≢◌, ◌∙◌, sym, subst, false, List, none, some, if◌then◌else◌, Bool-cases, some_eq, inl,
  inr, Eq, beq, arith,
}
use flowspec_vpp_agent.Data.Assoc.{lookup, delete, lookup-insert, lookup-delete}
use flowspec_vpp_agent.Vpp.Types.{AclRule}
use flowspec_vpp_agent.Manager.State.{Entry, Manager, or_zero, is_empty}
use flowspec_vpp_agent.Manager.Refcount.{settle}
use flowspec_vpp_agent.Manager.Refcount.Owners.{
  lookup_empty, owned_in-insert, owned_in-delete, owned, lists, EntryOk, EntriesOk,
}

module _ {S K R : Type 0} ⦃es : Eq S⦄ ⦃ek : Eq K⦄ where
  -- An entry is written back, or deleted with its last owner: its owners are what was given.
  pub owned-settle :
      (key : K) (e : Entry S) (m : Manager S K R) (k : K) (s : S)
      → owned (settle key e m).0 k s
        ≡ (if beq key k then or_zero (lookup s e.owners) else owned m k s)
  unfolding owned settle
  owned-settle key e m k s = elim (Bool-cases (is_empty e.owners)) [
    | inl none_left ↦
        rw (none_left, owned_in-delete key k m.entries s, lookup_empty s e.owners none_left)
    | inr some_left ↦ rw some_left (owned_in-insert key k e m.entries s)
  ]

  pub lookup-settle :
      (key : K) (e : Entry S) (m : Manager S K R) (k : K)
      → lookup k (settle key e m).0.entries
        ≡ (if beq key k then (if is_empty e.owners then none else some e) else lookup k m.entries)
  unfolding settle
  lookup-settle key e m k = elim (Bool-cases (is_empty e.owners)) [
    | inl none_left ↦ rw none_left (lookup-delete key k m.entries)
    | inr some_left ↦ rw some_left (lookup-insert key k e m.entries)
  ]

  -- Writing an entry back keeps the entries in order, if it is in order while it has owners.
  pub settle-EntriesOk :
      (key : AclRule → K) (k₀ : K) (e : Entry S) (m : Manager S K R)
      → EntriesOk key m
      → (is_empty e.owners ≡ false → EntryOk key k₀ e)
      → EntriesOk key (settle k₀ e m).0
  settle-EntriesOk key k₀ e m h new k e' found =
      let found' = sym (lookup-settle k₀ e m k) ∙ found in
      elim (Bool-cases (beq k₀ k)) [
        | inl hit ↦ elim (Bool-cases (is_empty e.owners)) [
          | inl none_left ↦ absurd (ground (arith, rw (hit, none_left) at found'))
          | inr some_left ↦
              subst (λ i. EntryOk key i e') ((ek.beq_iff k₀ k).0 hit)
                (subst (EntryOk key k₀) (some_eq (rw (hit, some_left) at found')) (new some_left))
        ]
        | inr miss ↦ h k e' (rw miss at found')
      ]

  pub lists-settle :
      (key : K) (e : Entry S) (m : Manager S K R) (k : K) (s : S)
      → lists (settle key e m).0 k s ≡ lists m k s
  unfolding lists settle
  lists-settle key e m k s = ground arith

module _ {S : Type 0} ⦃es : Eq S⦄ where
  pub delete-positive :
      (s : S) (owners : List (S × ℕ))
      → ((q : S) (c : ℕ) → lookup q owners ≡ some c → c ≢ 0)
      → (q : S) (c : ℕ) → lookup q (delete s owners) ≡ some c
      → c ≢ 0
  delete-positive s owners h q c found = ground (arith, lookup-delete s q owners, h q c)
