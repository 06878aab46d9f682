-- ===== src/LocalRules/Delivery.antt =====
-- What the controller has sent to the manager stands for its leases.
use Prim.Native.String.{String}
use flowspec_vpp_agent.Prelude.{
  ◌≡◌, ◌≢◌, refl, ◌∙◌, sym, ap, Bool, true, false, List, [], ◌∷◌, ◌++◌, Option, none, some,
  if◌then◌else◌, Bool-cases, some_eq, inl, inr, beq, beq_refl, beq_ne, subst, string_eq, arith,
}
use flowspec_vpp_agent.Data.Assoc.{lookup, delete, lookup-delete}
use flowspec_vpp_agent.Flowspec.{Rule}
use flowspec_vpp_agent.Manager.Handlers.{Op, op_announce, op_withdraw, op_session_down, op_resync}
use flowspec_vpp_agent.LocalRules.{
  Lease, Message, update, advert, Controller, drop_lease, announce_lease, withdraw_rule,
}

-- The rule that stands under a text after one message, and after a list of them. Text identifies a rule
-- for the manager.
abbrev pub heard_one : Message → String → Option Rule → Option Rule
heard_one (update op_announce r) raw old = if beq r.raw raw then some r else old
heard_one (update op_withdraw r) raw old = if beq r.raw raw then none else old
heard_one (update op_session_down r) raw old = old
heard_one (update op_resync r) raw old = old
heard_one (advert r withdraw) raw old = old

unfoldable pub heard : List Message → String → Option Rule → Option Rule
heard [] raw old = old
heard (m ∷ ms) raw old = heard ms raw (heard_one m raw old)

heard-append :
    (ms ns : List Message) (raw : String) (old : Option Rule)
    → heard (ms ++ ns) raw old ≡ heard ns raw (heard ms raw old)
unfolding heard
heard-append [] ns raw old = refl
heard-append (m ∷ ms) ns raw old = heard-append ms ns raw (heard_one m raw old)

abbrev pub told : Controller → String → Option Rule
told c raw = heard c.sent raw none

-- Leases hold rules of different texts, and what was told under a text is the rule of the lease with it.
pub record Delivered (c : Controller) : Type 0 where
  pub apart :
      (id id' : String) (l l' : Lease)
      → lookup id c.leases ≡ some l
      → lookup id' c.leases ≡ some l'
      → l.rule.raw ≡ l'.rule.raw
      → id ≡ id'
  pub held :
      (id : String) (l : Lease) → lookup id c.leases ≡ some l → told c l.rule.raw ≡ some l.rule
  pub known :
      (raw : String) (r : Rule)
      → told c raw ≡ some r
      → (id : String) × (l : Lease) × (lookup id c.leases ≡ some l) × (l.rule ≡ r) × (r.raw ≡ raw)

told_sent :
    (b : Bool) (ms : List Message) (op : Op) (r : Rule) (w : Bool) (raw : String)
    → heard
        (if b then (ms ++ update op r ∷ []) ++ advert r w ∷ [] else ms ++ update op r ∷ [])
        raw
        none
      ≡ heard_one (update op r) raw (heard ms raw none)
unfolding heard
told_sent true ms op r w raw =
    heard-append (ms ++ update op r ∷ []) (advert r w ∷ []) raw none
    ∙ heard-append ms (update op r ∷ []) raw none
told_sent false ms op r w raw = heard-append ms (update op r ∷ []) raw none

pub told-withdraw_rule :
    (r : Rule) (c : Controller) (raw : String)
    → told (withdraw_rule r c) raw ≡ (if beq r.raw raw then none else told c raw)
told-withdraw_rule r c raw = told_sent c.has_advertiser c.sent op_withdraw r true raw

pub told-announce_lease :
    (r : Rule) (c : Controller) (raw : String)
    → told (announce_lease r c) raw ≡ (if beq r.raw raw then some r else told c raw)
told-announce_lease r c raw = told_sent c.has_advertiser c.sent op_announce r false raw

pub same_text : (s t : String) → beq s t ≡ true → s ≡ t
same_text s t h = (string_eq.beq_iff s t).0 h

module _ (c c' : Controller) (id : String) (h : Delivered c) where
  -- A lease and what was told of it are gone.
  removed-Delivered :
      (l : Lease)
      → lookup id c.leases ≡ some l
      → ((j : String) → lookup j c'.leases ≡ (if beq id j then none else lookup j c.leases))
      → ((raw : String) → told c' raw ≡ (if beq l.rule.raw raw then none else told c raw))
      → Delivered c'
  removed-Delivered l found leases' told' =
      let kept : (j : String) (l' : Lease)
          → lookup j c'.leases ≡ some l'
          → (beq id j ≡ false) × (lookup j c.leases ≡ some l') =
        λ j l' f. (ground (arith, leases' j), ground (arith, leases' j)) in
      record {
        apart = λ j j' m m' f f' e. h.apart j j' m m' (kept j m f).1 (kept j' m' f').1 e;
        held = λ j m f. elim (Bool-cases (beq l.rule.raw m.rule.raw)) [
          | inl hit ↦
              let same =
                h.apart id j l m found (kept j m f).1 (same_text l.rule.raw m.rule.raw hit) in
              absurd (ground (arith, (kept j m f).0, (string_eq.beq_iff id j).1 same))
          | inr miss ↦ told' m.rule.raw ∙ rw miss (h.held j m (kept j m f).1)
        ];
        known = λ raw r t. elim (Bool-cases (beq l.rule.raw raw)) [
          | inl hit ↦ absurd (ground (arith, told' raw))
          | inr miss ↦
              let (j, m, f, e, tx) = h.known raw r (ground (arith, told' raw)) in
              elim (Bool-cases (beq id j)) [
                | inl hit ↦
                    let same : l ≡ m =
                      some_eq (sym found ∙ ap (λ k. lookup k c.leases) (same_text id j hit) ∙ f) in
                    let this : l.rule.raw ≡ raw =
                      ap (λ (x : Lease). x.rule.raw) same ∙ ap (λ (x : Rule). x.raw) e ∙ tx in
                    absurd (ground (arith, miss, (string_eq.beq_iff l.rule.raw raw).1 this))
                | inr other ↦ (j, m, leases' j ∙ rw other f, e, tx)
              ]
        ];
      }

  -- A lease with a new text, and the telling of it.
  pub placed-Delivered :
      (l : Lease)
      → lookup id c.leases ≡ none
      → ((j : String) (m : Lease) → lookup j c.leases ≡ some m → m.rule.raw ≢ l.rule.raw)
      → ((j : String) → lookup j c'.leases ≡ (if beq id j then some l else lookup j c.leases))
      → ((raw : String) → told c' raw ≡ (if beq l.rule.raw raw then some l.rule else told c raw))
      → Delivered c'
  placed-Delivered l absent fresh leases' told' =
      let kept : (j : String) (m : Lease)
          → beq id j ≡ false
          → lookup j c'.leases ≡ some m
          → lookup j c.leases ≡ some m =
        λ j m other f. ground (arith, leases' j) in
      let new : (j : String) (m : Lease) → beq id j ≡ true → lookup j c'.leases ≡ some m → l ≡ m =
        λ j m hit f. some_eq (sym (leases' j ∙ rw hit) ∙ f) in
      let text_of = λ (x : Lease). x.rule.raw in
      record {
        apart = λ j j' m m' f f' e. elim (Bool-cases (beq id j)) [
          | inl hit ↦ elim (Bool-cases (beq id j')) [
            | inl hit' ↦ sym (same_text id j hit) ∙ same_text id j' hit'
            | inr other' ↦
                absurd
                  (fresh j' m' (kept j' m' other' f') (sym e ∙ sym (ap text_of (new j m hit f))))
          ]
          | inr other ↦ elim (Bool-cases (beq id j')) [
            | inl hit' ↦
                absurd (fresh j m (kept j m other f) (e ∙ sym (ap text_of (new j' m' hit' f'))))
            | inr other' ↦ h.apart j j' m m' (kept j m other f) (kept j' m' other' f') e
          ]
        ];
        held = λ j m f. elim (Bool-cases (beq id j)) [
          | inl hit ↦
              subst (λ (x : Lease). told c' x.rule.raw ≡ some x.rule) (new j m hit f)
                (told' l.rule.raw ∙ rw (beq_refl l.rule.raw))
          | inr other ↦
              let m_held = kept j m other f in
              told' m.rule.raw
              ∙ rw (beq_ne l.rule.raw m.rule.raw (λ e. fresh j m m_held (sym e)))
                  (h.held j m m_held)
        ];
        known = λ raw r t. elim (Bool-cases (beq l.rule.raw raw)) [
          | inl hit ↦
              let same : l.rule ≡ r = some_eq (sym (told' raw ∙ rw hit) ∙ t) in
              (
                id,
                l,
                leases' id ∙ rw (beq_refl id),
                same,
                sym (ap (λ (x : Rule). x.raw) same) ∙ same_text l.rule.raw raw hit,
              )
          | inr miss ↦
              let (j, m, f, e, tx) = h.known raw r (ground (arith, told' raw)) in
              elim (Bool-cases (beq id j)) [
                | inl hit ↦
                    let gone : lookup j c.leases ≡ none =
                      ap (λ k. lookup k c.leases) (sym (same_text id j hit)) ∙ absent in
                    absurd (ground (arith, gone, f))
                | inr other ↦ (j, m, leases' j ∙ rw other f, e, tx)
              ]
        ];
      }

pub drop_lease-Delivered :
    (id : String) (l : Lease) (c : Controller)
    → lookup id c.leases ≡ some l
    → Delivered c
    → Delivered (drop_lease id l c)
drop_lease-Delivered id l c found h =
    removed-Delivered c (drop_lease id l c) id h l found (λ j. lookup-delete id j c.leases)
      (told-withdraw_rule l.rule (record c { leases = delete id c.leases }))

pub left_over :
    (id j : String) (m : Lease) (ls : List (String × Lease))
    → lookup j (delete id ls) ≡ some m
    → (beq id j ≡ false) × (lookup j ls ≡ some m)
left_over id j m ls f =
    (ground (arith, lookup-delete id j ls), ground (arith, lookup-delete id j ls))
