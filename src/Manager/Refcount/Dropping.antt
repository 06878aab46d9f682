-- ===== src/Manager/Refcount/Dropping.antt =====
-- What `remove_session_owner` does.
use flowspec_vpp_agent.Prelude.{
  ◌≡◌, ◌∙◌, none, some, ◌==◌, if◌then◌else◌, Bool-cases, Option-cases, inl, inr, Eq, arith,
}
use flowspec_vpp_agent.Data.Assoc.{lookup, delete, lookup-delete}
use flowspec_vpp_agent.Vpp.Types.{AclRule}
use flowspec_vpp_agent.Manager.State.{Entry, Manager, or_zero}
use flowspec_vpp_agent.Manager.Refcount.{release_all, remove_session_owner}
use flowspec_vpp_agent.Manager.Refcount.Owners.{both, owned, EntriesOk}
use flowspec_vpp_agent.Manager.Refcount.Settling.{owned-settle, settle-EntriesOk, delete-positive}

module _ {S K R : Type 0} ⦃es : Eq S⦄ ⦃ek : Eq K⦄ where
  release_all-owned :
      (key : K) (s : S) (e : Entry S) (m : Manager S K R) (k : K) (s' : S)
      → lookup key m.entries ≡ some e
      → owned (release_all key s e m).0 k s' ≡ (if both key s k s' then 0 else owned m k s')
  unfolding owned release_all
  release_all-owned key s e m k s' found = elim (Bool-cases (or_zero (lookup s e.owners) == 0)) [
    | inl zero ↦ rw zero (ground (arith, found, ek.beq_iff key k, es.beq_iff s s'))
    | inr pos ↦ rw pos (
        owned-settle key (record e { owners = delete s e.owners }) m k s'
        ∙ ground (arith, lookup-delete s s' e.owners, found, ek.beq_iff key k))
  ]

  absent-owned :
      (key : K) (s : S) (m : Manager S K R) (k : K) (s' : S)
      → lookup key m.entries ≡ none
      → owned m k s' ≡ (if both key s k s' then 0 else owned m k s')
  unfolding owned
  absent-owned key s m k s' absent = ground (arith, ek.beq_iff key k)

  -- `remove_session_owner` sets the count of its key and session to 0 and changes no other count.
  pub owned-remove_session_owner :
      (key : K) (s : S) (m : Manager S K R) (k : K) (s' : S)
      → owned (remove_session_owner key s m).0 k s' ≡ (if both key s k s' then 0 else owned m k s')
  unfolding remove_session_owner
  owned-remove_session_owner key s m k s' = elim (Option-cases (lookup key m.entries)) [
    | inl absent ↦ rw (absent, remove_session_owner) (absent-owned key s m k s' absent)
    | inr (e, found) ↦ rw (found, remove_session_owner) (release_all-owned key s e m k s' found)
  ]

  release_all-EntriesOk :
      (key : AclRule → K) (k : K) (s : S) (e : Entry S) (m : Manager S K R)
      → lookup k m.entries ≡ some e
      → EntriesOk key m
      → EntriesOk key (release_all k s e m).0
  unfolding release_all
  release_all-EntriesOk key k s e m found h = elim (Bool-cases (or_zero (lookup s e.owners) == 0)) [
    | inl zero ↦ rw zero h
    | inr pos ↦
        let ok = h k e found in
        rw pos (
          settle-EntriesOk key k (record e { owners = delete s e.owners }) m h
            (λ some_left. record {
              has_owners = record {
                some_owner = some_left;
                positive = delete-positive s e.owners ok.has_owners.positive;
              };
              keyed = ok.keyed;
              filed = ok.filed;
            }))
  ]

  pub remove_session_owner-EntriesOk :
      (key : AclRule → K) (k : K) (s : S) (m : Manager S K R)
      → EntriesOk key m
      → EntriesOk key (remove_session_owner k s m).0
  unfolding remove_session_owner
  remove_session_owner-EntriesOk key k s m h = elim (Option-cases (lookup k m.entries)) [
    | inl absent ↦ rw (absent, remove_session_owner) h
    | inr (e, found) ↦ rw (found, remove_session_owner) (release_all-EntriesOk key k s e m found h)
  ]

  pub remove_session_owner_frame :
      (key : K) (s : S) (m : Manager S K R)
      → ((remove_session_owner key s m).0.session_routes ≡ m.session_routes)
        × ((remove_session_owner key s m).0.session_rules ≡ m.session_rules)
  unfolding remove_session_owner
  remove_session_owner_frame key s m = (ground arith, ground arith)
