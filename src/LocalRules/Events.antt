-- ===== src/LocalRules/Events.antt =====
-- Events and expiry keep what was sent in step with the leases.
use Prim.Native.String.{String}
use flowspec_vpp_agent.Prelude.{
  ℕ, ◌+◌, ◌≡◌, ◌∙◌, sym, ap, Bool, true, false, List, [], ◌∷◌, none, some, ltb, if◌then◌else◌,
  Bool-cases, Option-cases, inl, inr, beq, beq_refl, string_eq, arith, ◌==◌,
}
use flowspec_vpp_agent.Data.Assoc.{lookup, insert, delete, lookup-insert, lookup-delete}
use flowspec_vpp_agent.Data.Assoc.Distinct.{Distinct}
use flowspec_vpp_agent.LocalRules.{
  Event, Lease, Controller, same_rule, publish, take_event, apply_event, drop_lease, replace_lease,
  refresh_lease, withdraw_rule, expire_from, expire, any_expired,
}
use flowspec_vpp_agent.LocalRules.Delivery.{
  told, Delivered, told-withdraw_rule, told-announce_lease, same_text, placed-Delivered,
  drop_lease-Delivered, left_over,
}

-- No other lease holds the rule's text.
abbrev pub IsFresh : Event → Controller → Type 0
IsFresh ev c =
    (id : String) (l : Lease) → lookup id c.leases ≡ some l → l.rule.raw ≡ ev.rule.raw → id ≡ ev.id

abbrev lease_of : Event → ℕ → Lease
lease_of ev now = record { rule = ev.rule; expires_at = now + ev.ttl }

placed_first :
    (ev : Event) (now : ℕ) (c : Controller)
    → lookup ev.id c.leases ≡ none
    → IsFresh ev c
    → Delivered c
    → Delivered (replace_lease ev now none c)
unfolding publish
placed_first ev now c absent fresh h =
    placed-Delivered c (replace_lease ev now none c) ev.id h (lease_of ev now) absent
      (λ j m f e. ground (arith, absent, ap (λ k. lookup k c.leases) (fresh j m f e), f))
      (λ j. lookup-insert ev.id j (lease_of ev now) c.leases)
      (told-announce_lease ev.rule (record c { leases = insert ev.id (lease_of ev now) c.leases }))

-- A lease for another rule is first withdrawn.
placed_again :
    (ev : Event) (now : ℕ) (old : Lease) (c : Controller)
    → lookup ev.id c.leases ≡ some old
    → IsFresh ev c
    → Delivered c
    → Delivered (replace_lease ev now (some old) c)
unfolding publish
placed_again ev now old c found fresh h =
    let c₁ = drop_lease ev.id old c in
    let c₂ = record c { leases = insert ev.id (lease_of ev now) c.leases } in
    placed-Delivered c₁ (replace_lease ev now (some old) c) ev.id
      (drop_lease-Delivered ev.id old c found h) (lease_of ev now)
      (lookup-delete ev.id ev.id c.leases ∙ rw (beq_refl ev.id))
      (λ j m f e.
        let kept = left_over ev.id j m c.leases f in
        absurd (ground (arith, kept.0, (string_eq.beq_iff ev.id j).1 (sym (fresh j m kept.1 e)))))
      (λ j.
        lookup-insert ev.id j (lease_of ev now) c.leases
        ∙ ground (arith, lookup-delete ev.id j c.leases))
      (told-announce_lease ev.rule (withdraw_rule old.rule c₂))

-- A lease for the same rule only gets another end, and nothing is sent.
retimed :
    (ev : Event) (now : ℕ) (old : Lease) (c : Controller)
    → lookup ev.id c.leases ≡ some old
    → Delivered c
    → Delivered (refresh_lease ev now old c)
unfolding publish
retimed ev now old c found h = elim (Bool-cases ev.refresh) [
  | inl refresh ↦
      let new : Lease = record old { expires_at = now + ev.ttl } in
      let c' = record c { leases = insert ev.id new c.leases } in
      rw refresh (
        placed-Delivered (drop_lease ev.id old c) (publish c') ev.id
          (drop_lease-Delivered ev.id old c found h) new
          (lookup-delete ev.id ev.id c.leases ∙ rw (beq_refl ev.id))
          (λ j m f e.
            let kept = left_over ev.id j m c.leases f in
            absurd (
              ground (
                arith,
                kept.0,
                (string_eq.beq_iff ev.id j).1 (sym (h.apart j ev.id m old kept.1 found e)),
              )))
          (λ j. lookup-insert ev.id j new c.leases ∙ ground (arith, lookup-delete ev.id j c.leases))
          (λ raw. elim (Bool-cases (beq old.rule.raw raw)) [
            | inl hit ↦
                rw hit (ap (told c) (sym (same_text old.rule.raw raw hit)) ∙ h.held ev.id old found)
            | inr miss ↦ rw miss (
                sym (
                  told-withdraw_rule old.rule (record c { leases = delete ev.id c.leases }) raw
                  ∙ rw miss))
          ]))
  | inr keep ↦ rw keep h
]

-- Handling an event whose rule no other lease holds keeps the leases and what was told of them in step.
pub apply_event-Delivered :
    (ev : Event) (now : ℕ) (c : Controller)
    → IsFresh ev c
    → Delivered c
    → Delivered (apply_event ev now c)
unfolding apply_event take_event
apply_event-Delivered ev now c fresh h = elim (Bool-cases (ev.ttl == 0)) [
  | inl no_time ↦ rw no_time h
  | inr timed ↦ elim (Bool-cases c.dry_run) [
    | inl dry ↦ simp (timed, dry) h
    | inr wet ↦
        simp (timed, wet)
          (elim (Option-cases (lookup ev.id c.leases)) [
            | inl absent ↦ rw (absent, take_event) (placed_first ev now c absent fresh h)
            | inr (old, found) ↦ elim (Bool-cases (same_rule old.rule ev.rule)) [
              | inl same ↦ rw (found, take_event) (rw same (retimed ev now old c found h))
              | inr other ↦
                  rw (found, take_event) (rw other (placed_again ev now old c found fresh h))
            ]
          ])
  ]
]

later_lease :
    (j id : String) (l l' : Lease) (ls : List (String × Lease))
    → Distinct ((j, l) ∷ ls)
    → lookup id ls ≡ some l'
    → lookup id ((j, l) ∷ ls) ≡ some l'
unfolding lookup
later_lease j id l l' ls d f = ground (arith, string_eq.beq_iff j id, d.0, f)

expire_from-Delivered :
    (now : ℕ) (ls : List (String × Lease)) (c : Controller)
    → Distinct ls
    → ((id : String) (l : Lease) → lookup id ls ≡ some l → lookup id c.leases ≡ some l)
    → Delivered c
    → Delivered (expire_from now ls c)
unfolding expire_from lookup
expire_from-Delivered now [] c d here h = h
expire_from-Delivered now ((j, l) ∷ ls) c d here h = elim (Bool-cases (ltb now l.expires_at)) [
  | inl live ↦
      rw (expire_from, live)
        (expire_from-Delivered now ls c d.1 (λ id l' f. here id l' (later_lease j id l l' ls d f))
          h)
  | inr over ↦
      rw (expire_from, over)
        (expire_from-Delivered now ls (drop_lease j l c) d.1
          (λ id l' f.
            lookup-delete j id c.leases
            ∙ ground
                (arith, string_eq.beq_iff j id, d.0, f, here id l' (later_lease j id l l' ls d f)))
          (drop_lease-Delivered j l c (here j l (rw (beq_refl j))) h))
]

if_published : (b : Bool) (c : Controller) → Delivered c → Delivered (if b then publish c else c)
unfolding publish
if_published true c h = record { apart = h.apart; held = h.held; known = h.known }
if_published false c h = h

-- When every event has one lease, `expire` keeps the leases and what was told of them in step.
pub expire-Delivered :
    (now : ℕ) (c : Controller) → Distinct c.leases → Delivered c → Delivered (expire now c)
unfolding expire
expire-Delivered now c d h =
    if_published (any_expired now c.leases) (expire_from now c.leases c)
      (expire_from-Delivered now c.leases c d (λ id l f. f) h)
