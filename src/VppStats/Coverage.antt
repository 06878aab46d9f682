-- ===== src/VppStats/Coverage.antt =====
-- Which windows the rings of internal/vppstats can serve.
use Prim.Native.String.{String}
use flowspec_vpp_agent.Prelude.{
  ℕ, zero, suc, ◌/◌, ◌≡◌, ◌≢◌, refl, ◌∙◌, ap, sym, Bool, true, List, [], ◌∷◌, Option, none, some,
  ltb, if◌then◌else◌, length, beq, string_eq, inl, inr, Bool-cases, Option-cases, some_eq, subst,
  arith,
}
use flowspec_vpp_agent.Data.Assoc.{lookup, lookup-insert}
use flowspec_vpp_agent.VppStats.{
  Arithmetic, Sample, RingConfig, with_defaults, Slot, RateRing, InterfaceRings, ring_covers,
  covers, coarser, choose_ring, new_ring, new_interface_rings, add_to_ring, add_to_rings, replicate,
  set_slot,
}
use flowspec_vpp_agent.VppStats.Store.{
  Store, new_store, add, find_ring, interface_rates, interface_window, window_of, rings_of,
  recompute_total,
}

module _ {F : Type 0} where
  length-replicate : (n : ℕ) (s : Slot F) → length (replicate n s) ≡ n
  unfolding replicate
  length-replicate zero s = refl
  length-replicate (suc n) s = omega (arith, length-replicate n s)

  length-set_slot : (l : List (Slot F)) (i : ℕ) (v : Slot F) → length (set_slot l i v) ≡ length l
  unfolding set_slot
  length-set_slot [] i v = refl
  length-set_slot (s ∷ l) zero v = refl
  length-set_slot (s ∷ l) (suc i) v = omega (arith, length-set_slot l i v)

  -- A ring serves a window.
  abbrev serves : RateRing F → ℕ → ℕ → Bool
  serves r window offset = ring_covers r.resolution (length r.slots) window offset

  coarser-some :
      (window offset : ℕ) (best : Option (RateRing F)) (r : RateRing F)
      → best ≢ none
      → coarser window offset best r ≢ none
  unfolding coarser
  coarser-some window offset none r h = absurd (h refl)
  coarser-some window offset (some b) r h = ground arith

  coarser-serves :
      (window offset : ℕ) (best : Option (RateRing F)) (r : RateRing F)
      → serves r window offset ≡ true
      → coarser window offset best r ≢ none
  unfolding coarser
  coarser-serves window offset none r h = ground arith
  coarser-serves window offset (some b) r h = ground arith

slot_count : ℕ → ℕ → ℕ
slot_count resolution duration = if ltb (duration / resolution) 1 then 1 else duration / resolution

-- A window that `Covers` finds a place for in a ring fits the ring that is made.
slot_count-covers :
    (resolution duration window offset : ℕ)
    → ring_covers resolution (duration / resolution) window offset ≡ true
    → slot_count resolution duration ≡ duration / resolution
unfolding ring_covers slot_count
slot_count-covers resolution duration window offset h = ground arith

ring_serves :
    {F : Type 0} (r : RateRing F) (resolution duration window offset : ℕ)
    → r.resolution ≡ resolution
    → length r.slots ≡ slot_count resolution duration
    → ring_covers resolution (duration / resolution) window offset ≡ true
    → serves r window offset ≡ true
ring_serves r resolution duration window offset hr hs h =
    ap (λ x. ring_covers x (length r.slots) window offset) hr
    ∙ (ap (λ n. ring_covers resolution n window offset)
          (hs ∙ slot_count-covers resolution duration window offset h)
        ∙ h)

-- The rings of an interface are those of a configuration.
record IsShaped {F : Type 0} (c : RingConfig) (r : InterfaceRings F) : Type 0 where
  fine_resolution : r.fine.resolution ≡ c.fine_resolution
  fine_slots : length r.fine.slots ≡ slot_count c.fine_resolution c.fine_duration
  medium_resolution : r.medium.resolution ≡ c.medium_resolution
  medium_slots : length r.medium.slots ≡ slot_count c.medium_resolution c.medium_duration
  coarse_resolution : r.coarse.resolution ≡ c.coarse_resolution
  coarse_slots : length r.coarse.slots ≡ slot_count c.coarse_resolution c.coarse_duration

module _ {F : Type 0} (a : Arithmetic F) where
  new_interface_rings-IsShaped : (c : RingConfig) → IsShaped c (new_interface_rings a c)
  unfolding new_interface_rings new_ring slot_count
  new_interface_rings-IsShaped c = record {
    fine_resolution = refl;
    fine_slots = length-replicate _ _;
    medium_resolution = refl;
    medium_slots = length-replicate _ _;
    coarse_resolution = refl;
    coarse_slots = length-replicate _ _;
  }

  add_to_rings-IsShaped :
      (c : RingConfig) (r : InterfaceRings F) (s : Sample F)
      → IsShaped c r
      → IsShaped c (add_to_rings a r s)
  unfolding add_to_rings add_to_ring
  add_to_rings-IsShaped c r s h = record {
    fine_resolution = h.fine_resolution;
    fine_slots = length-set_slot _ _ _ ∙ h.fine_slots;
    medium_resolution = h.medium_resolution;
    medium_slots = length-set_slot _ _ _ ∙ h.medium_slots;
    coarse_resolution = h.coarse_resolution;
    coarse_slots = length-set_slot _ _ _ ∙ h.coarse_slots;
  }

  choose_ring-IsShaped :
      (c : RingConfig) (r : InterfaceRings F) (window offset : ℕ)
      → IsShaped (with_defaults c) r
      → covers c window offset ≡ true
      → choose_ring r window offset ≢ none
  unfolding covers choose_ring
  choose_ring-IsShaped c r window offset h k =
      let d = with_defaults c in
      let fine = coarser window offset none r.fine in
      let medium = coarser window offset fine r.medium in
      elim (Bool-cases
        (ring_covers d.fine_resolution (d.fine_duration / d.fine_resolution) window offset)) [
          | inl t ↦ coarser-some window offset medium r.coarse (
              coarser-some window offset fine r.medium (
                coarser-serves window offset none r.fine (
                  ring_serves r.fine d.fine_resolution d.fine_duration window offset
                    h.fine_resolution h.fine_slots t)))
          | inr t ↦
              elim (Bool-cases (
                ring_covers d.medium_resolution (d.medium_duration / d.medium_resolution) window
                  offset)) [
                    | inl u ↦ coarser-some window offset medium r.coarse (
                        coarser-serves window offset fine r.medium (
                          ring_serves r.medium d.medium_resolution d.medium_duration window offset
                            h.medium_resolution h.medium_slots u))
                    | inr u ↦ coarser-serves window offset medium r.coarse (
                        ring_serves r.coarse d.coarse_resolution d.coarse_duration window offset
                          h.coarse_resolution h.coarse_slots (ground arith))
                  ]
        ]

-- Every ring set of the store has the shape of a configuration, which is the store's.
record IsShapedStore {F : Type 0} (c : RingConfig) (s : Store F) : Type 0 where
  configured : s.config ≡ c
  shaped : (name : String) (r : InterfaceRings F) → lookup name s.rings ≡ some r → IsShaped c r

module _ {F : Type 0} (a : Arithmetic F) where
  rings_of-IsShaped :
      (c : RingConfig) (s : Store F) (name : String)
      → IsShapedStore c s
      → IsShaped c (rings_of a s name)
  unfolding rings_of
  rings_of-IsShaped c s name h = elim (Option-cases (lookup name s.rings)) [
    | inl e ↦
        rw (e, rings_of)
          (subst (λ d. IsShaped c (new_interface_rings a d)) (sym h.configured)
            (new_interface_rings-IsShaped a c))
    | inr (r, e) ↦ rw (e, rings_of) (h.shaped name r e)
  ]

  add-IsShapedStore :
      (c : RingConfig) (s : Store F) (x : Sample F)
      → IsShapedStore c s
      → IsShapedStore c (add a s x)
  unfolding add recompute_total
  add-IsShapedStore c s x h =
      let grown =
        add_to_rings-IsShaped a c (rings_of a s x.name) x (rings_of-IsShaped c s x.name h) in
      record {
        configured = h.configured;
        shaped = λ name r e.
            let q =
              sym (lookup-insert x.name name (add_to_rings a (rings_of a s x.name) x) s.rings)
              ∙ e in
            elim (Bool-cases (beq x.name name)) [
              | inl t ↦ subst (IsShaped c) (some_eq (rw t at q)) grown
              | inr t ↦ h.shaped name r (rw t at q)
            ];
      }

  unfoldable pub add_all : Store F → List (Sample F) → Store F
  add_all s [] = s
  add_all s (x ∷ xs) = add_all (add a s x) xs

  add_all-IsShapedStore :
      (c : RingConfig) (s : Store F) (xs : List (Sample F))
      → IsShapedStore c s
      → IsShapedStore c (add_all s xs)
  unfolding add_all
  add_all-IsShapedStore c s [] h = h
  add_all-IsShapedStore c s (x ∷ xs) h =
      add_all-IsShapedStore c (add a s x) xs (add-IsShapedStore c s x h)

  new_store-IsShapedStore : (c : RingConfig) → IsShapedStore (with_defaults c) (new_store a c)
  unfolding new_store lookup
  new_store-IsShapedStore c = record { configured = refl; shaped = λ name r e. cc }

  find_ring-IsShaped :
      (c : RingConfig) (s : Store F) (name : String) (r : InterfaceRings F)
      → IsShapedStore c s
      → find_ring a s name ≡ some r
      → IsShaped c r
  unfolding find_ring
  find_ring-IsShaped c s name r h e = elim (Option-cases (lookup name s.rings)) [
    | inr (x, t) ↦ h.shaped name r (t ∙ (rw (t, find_ring) at e))
    | inl t ↦ elim (Option-cases (lookup name s.by_alias)) [
      | inl u ↦ absurd (let z : none ≡ some r = rw (t, u, find_ring) at e in cc)
      | inr (canonical, u) ↦ h.shaped canonical r (rw (t, u, find_ring) at e)
    ]
  ]

  -- A window that `Covers` accepts for a configuration is served: whatever samples a store of that
  -- configuration has received, and at any time, `InterfaceWindow` answers it for every interface that
  -- has rates, by name or by alias, whether the mean or the peak is asked for.
  pub covers-interface_window :
      (c : RingConfig) (samples : List (Sample F)) (name : String) (now window offset : ℕ)
      (peak : Bool)
      → covers c window offset ≡ true
      → interface_rates a (add_all (new_store a c) samples) name ≢ none
      → interface_window a (add_all (new_store a c) samples) name now window offset peak ≢ none
  unfolding interface_window window_of interface_rates
  covers-interface_window c samples name now window offset peak k known =
      let s = add_all (new_store a c) samples in
      let shaped =
        add_all-IsShapedStore (with_defaults c) (new_store a c) samples
          (new_store-IsShapedStore c) in
      elim (Option-cases (find_ring a s name)) [
        | inl e ↦ absurd (known (rw (e, interface_rates) refl))
        | inr (r, e) ↦
            let served =
              choose_ring-IsShaped a c r window offset
                (find_ring-IsShaped (with_defaults c) s name r shaped e) k in
            elim (Option-cases (choose_ring r window offset)) [
              | inl t ↦ absurd (served t)
              | inr (ring, t) ↦ rw (e, t, interface_window, window_of) (λ z. cc)
            ]
      ]
