-- ===== src/Manager/Refcount/Unique.antt =====
-- Every key has one entry: the methods keep the keys of the entries distinct.
use flowspec_vpp_agent.Prelude.{
  ℕ, ◌-◌, not, List, [], ◌∷◌, ◌==◌, if◌then◌else◌, Bool-cases, Option-cases, inl, inr, Eq,
}
use flowspec_vpp_agent.Data.Assoc.{lookup, insert, delete}
use flowspec_vpp_agent.Data.Assoc.Distinct.{Distinct, insert-Distinct, delete-Distinct}
use flowspec_vpp_agent.Vpp.Types.{AclFamily, AclRule}
use flowspec_vpp_agent.Manager.State.{Entry, Manager, or_zero, is_empty}
use flowspec_vpp_agent.Manager.Refcount.{
  add_owner, drop_rule, new_entry, own, put_routes, settle, release, remove_owner, release_all,
  remove_session_owner,
}

module _ {S K R : Type 0} ⦃es : Eq S⦄ ⦃ek : Eq K⦄ where
  abbrev pub Unique : Manager S K R → Type 0
  Unique m = Distinct m.entries

  pub add_owner-Unique :
      (key : K) (acl : AclRule) (fam : AclFamily) (s : S) (m : Manager S K R)
      → Unique m
      → Unique (add_owner key acl fam s m).0
  unfolding add_owner
  add_owner-Unique key acl fam s m d = elim (Option-cases (lookup key m.entries)) [
    | inl absent ↦
        rw (absent, add_owner) (insert-Distinct key (own (new_entry acl fam) s) m.entries d)
    | inr (e, found) ↦ rw (found, add_owner) (insert-Distinct key (own e s) m.entries d)
  ]

  settle-Unique : (key : K) (e : Entry S) (m : Manager S K R) → Unique m → Unique (settle key e m).0
  unfolding settle
  settle-Unique key e m d = elim (Bool-cases (is_empty e.owners)) [
    | inl none_left ↦ rw none_left (delete-Distinct key m.entries d)
    | inr some_left ↦ rw some_left (insert-Distinct key e m.entries d)
  ]

  release-Unique :
      (key : K) (s : S) (e : Entry S) (n : ℕ) (m : Manager S K R)
      → Unique m
      → Unique (release key s e n m).0
  unfolding release
  release-Unique key s e n m d = elim (Bool-cases (n == 0)) [
    | inl zero ↦ rw zero d
    | inr pos ↦ rw pos (
        settle-Unique key
          (record e { owners = if n == 1 then delete s e.owners else insert s (n - 1) e.owners })
          (record m { session_rules = drop_rule key s (not (n == 1)) m }) d)
  ]

  pub remove_owner-Unique :
      (key : K) (s : S) (m : Manager S K R) → Unique m → Unique (remove_owner key s m).0
  unfolding remove_owner
  remove_owner-Unique key s m d = elim (Option-cases (lookup key m.entries)) [
    | inl absent ↦ rw (absent, remove_owner) d
    | inr (e, found) ↦
        rw (found, remove_owner) (release-Unique key s e (or_zero (lookup s e.owners)) m d)
  ]

  release_all-Unique :
      (key : K) (s : S) (e : Entry S) (m : Manager S K R)
      → Unique m
      → Unique (release_all key s e m).0
  unfolding release_all
  release_all-Unique key s e m d = elim (Bool-cases (or_zero (lookup s e.owners) == 0)) [
    | inl zero ↦ rw zero d
    | inr pos ↦ rw pos (settle-Unique key (record e { owners = delete s e.owners }) m d)
  ]

  pub remove_session_owner-Unique :
      (key : K) (s : S) (m : Manager S K R) → Unique m → Unique (remove_session_owner key s m).0
  unfolding remove_session_owner
  remove_session_owner-Unique key s m d = elim (Option-cases (lookup key m.entries)) [
    | inl absent ↦ rw (absent, remove_session_owner) d
    | inr (e, found) ↦ rw (found, remove_session_owner) (release_all-Unique key s e m d)
  ]

module _ {S K R : Type 0} ⦃es : Eq S⦄ ⦃ek : Eq K⦄ ⦃er : Eq R⦄ where
  pub put_routes-Unique :
      (s : S) (rs : List (R × K)) (m : Manager S K R) → Unique m → Unique (put_routes s rs m)
  put_routes-Unique s [] m d = d
  put_routes-Unique s (r ∷ rs) m d = d
