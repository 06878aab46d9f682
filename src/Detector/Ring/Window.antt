-- ===== src/Detector/Ring/Window.antt =====
-- A ring counts what was added in the epochs that a window covers.
use native.Mathlib.Nat.{mod-lt, mod-add-mod, mod-eq_of_lt, mod-eq-sub-mod}
use flowspec_vpp_agent.Prelude.{
  ℕ, zero, suc, ◌+◌, ◌-◌, ◌*◌, ◌%◌, ◌≤◌, ◌<◌, ◌≡◌, ◌≢◌, refl, ◌∙◌, ap, sym, List, [], ◌∷◌, ltb,
  ◌==◌, if◌then◌else◌, length, inl, inr, Bool-cases, arith,
}
use flowspec_vpp_agent.Detector.Ring.{
  Slot, SampleRing, wrap, slot_index, get_or, set, slot_at, fresh, counted, add_at,
}

moved_on : (n m d : ℕ) → m < n → 0 < d → d < n → (m + d) % n ≢ m
moved_on n m d h k l q = elim (Bool-cases (ltb (m + d) n)) [
  | inl t ↦ let e = mod-eq_of_lt {n = m + d} {m = n} (ground arith) in omega (arith, e, q)
  | inr t ↦
      let r : n ≤ m + d = ground arith in
      let e = mod-eq-sub-mod {n = m + d} {m = n} r in
      let f = mod-eq_of_lt {n = m + d - n} {m = n} (omega arith) in omega (arith, e, f, q)
]

-- Two epochs less than `n` apart have different slots.
slots_differ : (n e d : ℕ) → 0 < d → d < n → (e + d) % n ≢ e % n
slots_differ n e d h k q = moved_on n (e % n) d (mod-lt e (omega arith)) h k (mod-add-mod e n d ∙ q)

length-set : (l : List Slot) (i : ℕ) (v : Slot) → length (set l i v) ≡ length l
unfolding set
length-set [] i v = refl
length-set (s ∷ l) zero v = refl
length-set (s ∷ l) (suc i) v = omega (arith, length-set l i v)

get_or-set_same : (l : List Slot) (i : ℕ) (v : Slot) → i < length l → get_or (set l i v) i ≡ v
unfolding set get_or
get_or-set_same [] i v h = absurd (omega arith)
get_or-set_same (s ∷ l) zero v h = refl
get_or-set_same (s ∷ l) (suc i) v h = get_or-set_same l i v (omega arith)

get_or-set-le :
    (l : List Slot) (i j bound : ℕ) (v : Slot)
    → v.epoch ≤ bound
    → (get_or l j).epoch ≤ bound
    → (get_or (set l i v) j).epoch ≤ bound
unfolding set get_or
get_or-set-le [] i j bound v h k = k
get_or-set-le (s ∷ l) zero zero bound v h k = h
get_or-set-le (s ∷ l) zero (suc j) bound v h k = k
get_or-set-le (s ∷ l) (suc i) zero bound v h k = k
get_or-set-le (s ∷ l) (suc i) (suc j) bound v h k = get_or-set-le l i j bound v h k

get_or-set_other : (l : List Slot) (i j : ℕ) (v : Slot) → i ≢ j → get_or (set l i v) j ≡ get_or l j
unfolding set get_or
get_or-set_other [] i j v h = refl
get_or-set_other (s ∷ l) zero zero v h = absurd (h refl)
get_or-set_other (s ∷ l) zero (suc j) v h = refl
get_or-set_other (s ∷ l) (suc i) zero v h = refl
get_or-set_other (s ∷ l) (suc i) (suc j) v h = get_or-set_other l i j v (λ q. h (omega (arith, q)))

-- What a ring holds of an epoch, in one of the counters.
module _ (field : Slot → ℕ) where
  unfoldable pub stored : SampleRing → ℕ → ℕ
  stored r e = if (slot_at r e).epoch == e then field (slot_at r e) else 0

  -- The ring holds the tally `P` of the last `n` epochs, and nothing of the time after `last`.
  pub record Tracks (r : SampleRing) (n last : ℕ) (P : ℕ → ℕ) : Type 0 where
    pub size : length r.slots ≡ n
    pub past : (i : ℕ) → (get_or r.slots i).epoch ≤ last
    pub kept : (e : ℕ) → last < e + n → stored r e ≡ wrap (P e)
    pub none_yet : (e : ℕ) → last < e → P e ≡ 0

  abbrev pub bump : (ℕ → ℕ) → ℕ → ℕ → ℕ → ℕ
  bump P epoch v e = if e == epoch then P e + v else P e

  module _ (r : SampleRing) (n last epoch v : ℕ) (P : ℕ → ℕ) (s : Slot) (tracks : Tracks r n last P)
      (positive : 0 < n) (later : last ≤ epoch) (written : s.epoch ≡ epoch)
      (counted : field s ≡ wrap (stored r epoch + v)) where
    put : SampleRing
    put = record r { slots = set r.slots (slot_index epoch (length r.slots)) s }

    not_before : (e : ℕ) → epoch < e + n → e ≢ epoch → epoch % n ≡ e % n → epoch < e
    not_before e h k q = elim (Bool-cases (ltb epoch e)) [
      | inl t ↦ ground arith
      | inr t ↦
          let i : epoch ≡ e + (epoch - e) = ground arith in
          absurd (
            slots_differ n e (epoch - e) (ground arith) (ground arith)
              (ap (λ x. x % n) (sym i) ∙ q))
    ]

    slot-put_same : (e : ℕ) → epoch % n ≡ e % n → slot_at put e ≡ s
    unfolding put slot_at slot_index
    slot-put_same e q =
        let k = length-set r.slots (epoch % length r.slots) s ∙ tracks.size in
        let i : e % length (set r.slots (epoch % length r.slots) s) ≡ epoch % length r.slots =
          ap (e %◌) k ∙ (sym q ∙ ap (epoch %◌) (sym tracks.size)) in
        rw i (
          get_or-set_same r.slots (epoch % length r.slots) s
            (mod-lt epoch (omega (arith, tracks.size))))

    slot-put_other : (e : ℕ) → epoch % n ≢ e % n → slot_at put e ≡ slot_at r e
    unfolding put slot_at slot_index
    slot-put_other e q = rw (length-set r.slots (epoch % length r.slots) s) (
        get_or-set_other r.slots (epoch % length r.slots) (e % length r.slots) s
          (λ z. q (ap (epoch %◌) (sym tracks.size) ∙ (z ∙ ap (e %◌) tracks.size))))

    put-kept : (e : ℕ) → epoch < e + n → stored put e ≡ wrap (bump P epoch v e)
    unfolding stored
    put-kept e h = elim (Bool-cases (e == epoch)) [
      | inl t ↦
          let z : e ≡ epoch = ground arith in
          let k = tracks.kept epoch (omega arith) in
          rw (z, slot-put_same epoch refl) (ground (arith, k))
      | inr t ↦ elim (Bool-cases (epoch % n == e % n)) [
        | inr u ↦ rw (t, slot-put_other e (λ z. ground arith)) (tracks.kept e (omega arith))
        | inl u ↦
            let same : epoch % n ≡ e % n = ground arith in
            let after : epoch < e = not_before e h (λ z. ground arith) same in
            rw (t, slot-put_same e same) (ground (arith, tracks.none_yet e))
      ]
    ]

    put-past : (i : ℕ) → (get_or put.slots i).epoch ≤ epoch
    unfolding put
    put-past i =
        let k = tracks.past i in
        get_or-set-le r.slots (slot_index epoch (length r.slots)) i epoch s (omega (arith, written))
          (omega (arith, k))

    put-Tracks : Tracks put n epoch (bump P epoch v)
    unfolding put
    put-Tracks = record {
      size = length-set r.slots (slot_index epoch (length r.slots)) s ∙ tracks.size;
      past = put-past;
      kept = put-kept;
      none_yet = λ e h. ground (arith, tracks.none_yet e);
    }

abbrev pub packets_of : Slot → ℕ
packets_of s = s.packets

abbrev pub bytes_of : Slot → ℕ
bytes_of s = s.bytes

module _ (r : SampleRing) (epoch packet_len weight : ℕ) where
  slot_epoch : (counted (fresh (slot_at r epoch) epoch) packet_len weight).epoch ≡ epoch
  unfolding counted fresh
  slot_epoch = ground arith

  slot_packets :
      (counted (fresh (slot_at r epoch) epoch) packet_len weight).packets
      ≡ wrap (stored packets_of r epoch + weight)
  unfolding counted fresh stored
  slot_packets = ground arith

  slot_bytes :
      (counted (fresh (slot_at r epoch) epoch) packet_len weight).bytes
      ≡ wrap (stored bytes_of r epoch + packet_len * weight)
  unfolding counted fresh stored
  slot_bytes = ground arith

module _ (r : SampleRing) (n last epoch packet_len weight : ℕ) (P : ℕ → ℕ) (positive : 0 < n)
    (later : last ≤ epoch) where
  abbrev slot : Slot
  slot = counted (fresh (slot_at r epoch) epoch) packet_len weight

  pub add_at-packets :
      Tracks packets_of r n last P
      → Tracks packets_of
          (add_at r epoch packet_len weight)
          n
          epoch
          (bump packets_of P epoch weight)
  unfolding add_at put
  add_at-packets h =
      put-Tracks packets_of r n last epoch weight P slot h positive later
        (slot_epoch r epoch packet_len weight) (slot_packets r epoch packet_len weight)

  pub add_at-bytes :
      Tracks bytes_of r n last P
      → Tracks bytes_of
          (add_at r epoch packet_len weight)
          n
          epoch
          (bump bytes_of P epoch (packet_len * weight))
  unfolding add_at put
  add_at-bytes h =
      put-Tracks bytes_of r n last epoch (packet_len * weight) P slot h positive later
        (slot_epoch r epoch packet_len weight) (slot_bytes r epoch packet_len weight)
