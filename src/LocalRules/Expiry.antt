-- ===== src/LocalRules/Expiry.antt =====
-- When leases expire.
use Prim.Native.String.{String}
use flowspec_vpp_agent.Prelude.{
  ℕ, ◌+◌, ◌≤◌, ◌<◌, ◌≡◌, refl, ◌∙◌, sym, ap, Bool, true, false, not, List, [], ◌∷◌, Option, none,
  some, ltb, ◌⊎◌, if◌then◌else◌, Bool-cases, some_eq, inl, inr, beq, string_eq, arith, ltb,
}
use flowspec_vpp_agent.Data.Assoc.{lookup, lookup-delete}
use flowspec_vpp_agent.Data.Assoc.Distinct.{Distinct}
use flowspec_vpp_agent.LocalRules.{
  Lease, Controller, drop_lease, expire_from, any_expired, expire, publish, earlier, earliest,
  next_wake, wake_at,
}

-- Whether the list holds an expired lease under the identity.
abbrev is_over : ℕ → Option Lease → Bool
is_over now none = false
is_over now (some l) = not (ltb now l.expires_at)

abbrev pub unexpired : ℕ → Option Lease → Option Lease
unexpired now none = none
unexpired now (some l) = if ltb now l.expires_at then some l else none

lookup-expire_from :
    (now : ℕ) (ls : List (String × Lease)) (c : Controller) (id : String)
    → Distinct ls
    → lookup id (expire_from now ls c).leases
      ≡ (if is_over now (lookup id ls) then none else lookup id c.leases)
unfolding expire_from lookup
lookup-expire_from now [] c id d = refl
lookup-expire_from now ((j, l) ∷ ls) c id d =
    lookup-expire_from now ls (if ltb now l.expires_at then c else drop_lease j l c) id d.1
    ∙ elim (Bool-cases (ltb now l.expires_at)) [
      | inl live ↦ rw live (ground (arith, live, string_eq.beq_iff j id, d.0))
      | inr over ↦
          rw over (ground (arith, over, string_eq.beq_iff j id, d.0, lookup-delete j id c.leases))
    ]

if_leases :
    (b : Bool) (x y : Controller) (id : String)
    → x.leases ≡ y.leases
    → lookup id (if b then x else y).leases ≡ lookup id y.leases
if_leases true x y id e = ap (lookup id) e
if_leases false x y id e = refl

if_over : (now : ℕ) (o : Option Lease) → (if is_over now o then none else o) ≡ unexpired now o
if_over now none = refl
if_over now (some l) = ground arith

-- When every event has one lease, `expire` deletes the leases whose time has come and no other.
pub lookup-expire :
    (now : ℕ) (c : Controller) (id : String)
    → Distinct c.leases
    → lookup id (expire now c).leases ≡ unexpired now (lookup id c.leases)
unfolding expire publish
lookup-expire now c id d =
    if_leases (any_expired now c.leases) (publish (expire_from now c.leases c))
      (expire_from now c.leases c) id refl
    ∙ lookup-expire_from now c.leases c id d
    ∙ if_over now (lookup id c.leases)

earlier_le : (n : Option ℕ) (t : ℕ) → (m : ℕ) × (earlier n t ≡ some m) × (m ≤ t)
earlier_le none t = (t, refl, omega arith)
earlier_le (some n) t = elim (Bool-cases (ltb t n)) [
  | inl less ↦ (t, rw less, omega arith)
  | inr more ↦ (n, rw more, ground (arith, more))
]

earlier_from : (n : Option ℕ) (t : ℕ) → (earlier n t ≡ n) ⊎ (earlier n t ≡ some t)
earlier_from none t = inr refl
earlier_from (some n) t = elim (Bool-cases (ltb t n)) [
  | inl less ↦ inr (rw less)
  | inr more ↦ inl (rw more)
]

earliest_bound :
    (n : ℕ) (ls : List (String × Lease)) → (e : ℕ) × (earliest (some n) ls ≡ some e) × (e ≤ n)
unfolding earliest
earliest_bound n [] = (n, refl, omega arith)
earliest_bound n ((j, l) ∷ ls) = elim (Bool-cases (ltb l.expires_at n)) [
  | inl less ↦
      let (e, same, le) = earliest_bound l.expires_at ls in
      (e, rw less same, ground (arith, less, le))
  | inr more ↦ let (e, same, le) = earliest_bound n ls in (e, rw more same, le)
]

earliest_le :
    (n : Option ℕ) (ls : List (String × Lease)) (id : String) (l : Lease)
    → lookup id ls ≡ some l
    → (e : ℕ) × (earliest n ls ≡ some e) × (e ≤ l.expires_at)
unfolding earliest lookup
earliest_le n [] id l found = cc
earliest_le n ((j, l') ∷ ls) id l found = elim (Bool-cases (beq j id)) [
  | inl hit ↦
      let same : l' ≡ l = some_eq (rw hit at found) in
      let (m, me, le) = earlier_le n l'.expires_at in
      let (e, ee, le') = earliest_bound m ls in
      (e, rw me ee, ground (arith, le, le', ap (λ (x : Lease). x.expires_at) same))
  | inr miss ↦ earliest_le (earlier n l'.expires_at) ls id l (rw miss at found)
]

-- While the list has a lease, the earliest end is one of its leases' or the one given.
earliest_over :
    (n : Option ℕ) (ls : List (String × Lease)) (e t : ℕ)
    → earliest n ls ≡ some e
    → e ≤ t
    → (n ≡ some e) ⊎ (any_expired t ls ≡ true)
unfolding earliest
earliest_over n [] e t same le = inl same
earliest_over n ((j, l) ∷ ls) e t same le =
    elim (earliest_over (earlier n l.expires_at) ls e t same le) [
      | inl here ↦ elim (earlier_from n l.expires_at) [
        | inl old ↦ inl (sym old ∙ here)
        | inr new ↦
            let this : l.expires_at ≡ e = some_eq (sym new ∙ here) in inr (ground (arith, this, le))
      ]
      | inr later ↦ inr (ground (arith, later))
    ]

-- While there is a lease, the wake-up is in the future, it comes no later than the end of any lease that is not
-- over yet, and some lease is over when it comes.
pub next_wake_lem :
    (now : ℕ) (id : String) (l : Lease) (ls : List (String × Lease))
    → lookup id ls ≡ some l
    → (0 < next_wake now ls)
      × (now < l.expires_at → now + next_wake now ls ≤ l.expires_at)
      × (any_expired (now + next_wake now ls) ls ≡ true)
unfolding next_wake
next_wake_lem now id l ls found =
    let (e, same, le) = earliest_le none ls id l found in
    rw (same, next_wake)
      (
        ground arith,
        λ future. ground (arith, le, future),
        elim (earliest_over none ls e (now + wake_at now (some e)) same (ground arith)) [
          | inl absent ↦ absurd (cc)
          | inr over ↦ over
        ],
      )
