-- ===== src/VppStats.antt =====
-- internal/vppstats/store.go: the rates of VPP's interfaces, in rings of time slots. Rates are float64,
-- here any type with the operations that the store uses. Times are nanoseconds since the Unix epoch
-- and not before it, and durations are not negative.
pub mod Store
pub mod Coverage
use Prim.Native.String.{String}
use flowspec_vpp_agent.Prelude.{
  ℕ, zero, suc, ◌+◌, ◌-◌, ◌*◌, ◌/◌, ◌%◌, ◌≤◌, ◌<◌, ◌≡◌, Bool, true, false, not, ◌&&◌, ◌||◌, List,
  [], ◌∷◌, Option, none, some, ltb, leb, ◌==◌, if◌then◌else◌, length, beq, string_eq,
}

-- The operations on float64
pub record Arithmetic (F : Type 0) : Type 0 where
  pub zero_of : F
  pub plus : F → F → F
  pub minus : F → F → F
  pub times : F → F → F
  pub quotient : F → F → F
  pub larger : F → F → F
  pub of_nat : ℕ → F

-- `detector.Rates`
pub record Rates (F : Type 0) : Type 0 where
  pub rx_pps : F
  pub tx_pps : F
  pub rx_bps : F
  pub tx_bps : F
  pub sw_drop_pps : F
  pub hw_drop_pps : F

-- The fields of `Sample` beside its rates, which `Sample.rates` gathers
pub record Sample (F : Type 0) : Type 0 where
  pub seen_at : ℕ
  pub name : String
  pub aliases : List String
  pub rates : Rates F

pub record RingConfig : Type 0 where
  pub fine_resolution : ℕ
  pub fine_duration : ℕ
  pub medium_resolution : ℕ
  pub medium_duration : ℕ
  pub coarse_resolution : ℕ
  pub coarse_duration : ℕ

abbrev pub second : ℕ
second = 1000000000

-- `DefaultRingConfig`
abbrev pub default_ring_config : RingConfig
default_ring_config = record {
  fine_resolution = second;
  fine_duration = 300 * second;
  medium_resolution = 60 * second;
  medium_duration = 86400 * second;
  coarse_resolution = 3600 * second;
  coarse_duration = 2592000 * second;
}

abbrev pub or_default : ℕ → ℕ → ℕ
or_default v d = if v == 0 then d else v

-- `withDefaults`
unfoldable pub with_defaults : RingConfig → RingConfig
with_defaults c =
    let d = default_ring_config in
    record {
      fine_resolution = or_default c.fine_resolution d.fine_resolution;
      fine_duration = or_default c.fine_duration d.fine_duration;
      medium_resolution = or_default c.medium_resolution d.medium_resolution;
      medium_duration = or_default c.medium_duration d.medium_duration;
      coarse_resolution = or_default c.coarse_resolution d.coarse_resolution;
      coarse_duration = or_default c.coarse_duration d.coarse_duration;
    }

-- `ringCovers`
unfoldable pub ring_covers : ℕ → ℕ → ℕ → ℕ → Bool
ring_covers res slots window offset =
    if res == 0 || (ltb slots 1 || ltb window res)
    then false
    else if not (window % res == 0) || not (offset % res == 0)
    then false
    else leb (window + offset) (slots * res)

-- `Covers`
unfoldable pub covers : RingConfig → ℕ → ℕ → Bool
covers config window offset =
    let c = with_defaults config in
    ring_covers c.fine_resolution (c.fine_duration / c.fine_resolution) window offset
    || (ring_covers c.medium_resolution (c.medium_duration / c.medium_resolution) window offset
        || ring_covers c.coarse_resolution (c.coarse_duration / c.coarse_resolution) window offset)

pub record Slot (F : Type 0) : Type 0 where
  pub epoch : ℕ
  pub count : ℕ
  pub rates : Rates F

pub record RateRing (F : Type 0) : Type 0 where
  pub resolution : ℕ
  pub slots : List (Slot F)

pub record InterfaceRings (F : Type 0) : Type 0 where
  pub fine : RateRing F
  pub medium : RateRing F
  pub coarse : RateRing F
  pub last : Option (Sample F)

module _ {F : Type 0} where
  -- One operation on every field
  unfoldable pub zip_rates : (F → F → F) → Rates F → Rates F → Rates F
  zip_rates f a b = record {
    rx_pps = f a.rx_pps b.rx_pps;
    tx_pps = f a.tx_pps b.tx_pps;
    rx_bps = f a.rx_bps b.rx_bps;
    tx_bps = f a.tx_bps b.tx_bps;
    sw_drop_pps = f a.sw_drop_pps b.sw_drop_pps;
    hw_drop_pps = f a.hw_drop_pps b.hw_drop_pps;
  }

  -- `make([]slot, n)` with each slot `s`
  unfoldable pub replicate : ℕ → Slot F → List (Slot F)
  replicate zero s = []
  replicate (suc n) s = s ∷ replicate n s

  unfoldable pub slot_at : Slot F → List (Slot F) → ℕ → Slot F
  slot_at d [] i = d
  slot_at d (s ∷ ss) zero = s
  slot_at d (s ∷ ss) (suc i) = slot_at d ss i

  unfoldable pub set_slot : List (Slot F) → ℕ → Slot F → List (Slot F)
  set_slot [] i v = []
  set_slot (s ∷ ss) zero v = v ∷ ss
  set_slot (s ∷ ss) (suc i) v = s ∷ set_slot ss i v

  -- The loop body of `chooseRing`
  unfoldable pub coarser : ℕ → ℕ → Option (RateRing F) → RateRing F → Option (RateRing F)
  coarser window offset best r =
      if not (ring_covers r.resolution (length r.slots) window offset) then best else elim best [
        | none ↦ some r
        | some b ↦ if ltb b.resolution r.resolution then some r else some b
      ]

  -- `chooseRing`
  unfoldable pub choose_ring : InterfaceRings F → ℕ → ℕ → Option (RateRing F)
  choose_ring r window offset =
      coarser window offset (coarser window offset (coarser window offset none r.fine) r.medium)
        r.coarse

module _ {F : Type 0} (a : Arithmetic F) where
  abbrev pub no_rates : Rates F
  no_rates = record {
    rx_pps = a.zero_of;
    tx_pps = a.zero_of;
    rx_bps = a.zero_of;
    tx_bps = a.zero_of;
    sw_drop_pps = a.zero_of;
    hw_drop_pps = a.zero_of;
  }

  abbrev pub empty_slot : Slot F
  empty_slot = record { epoch = 0; count = 0; rates = no_rates }

  -- `addRates`
  unfoldable pub add_rates : Rates F → Rates F → Rates F
  add_rates = zip_rates a.plus

  -- `maxRates`
  unfoldable pub max_rates : Rates F → Rates F → Rates F
  max_rates = zip_rates a.larger

  -- `scaleRates`
  unfoldable pub scale_rates : Rates F → F → Rates F
  scale_rates r f = zip_rates (λ x _. a.times x f) r r

  -- `meanRates`
  unfoldable pub mean_rates : Rates F → Rates F → F → Rates F
  mean_rates cur sample n = zip_rates (λ c s. a.plus c (a.quotient (a.minus s c) n)) cur sample

  -- `newRing`
  unfoldable pub new_ring : ℕ → ℕ → RateRing F
  new_ring resolution duration =
      let n = duration / resolution in
      record { resolution = resolution; slots = replicate (if ltb n 1 then 1 else n) empty_slot }

  -- `newInterfaceRings`
  unfoldable pub new_interface_rings : RingConfig → InterfaceRings F
  new_interface_rings c = record {
    fine = new_ring c.fine_resolution c.fine_duration;
    medium = new_ring c.medium_resolution c.medium_duration;
    coarse = new_ring c.coarse_resolution c.coarse_duration;
    last = none;
  }

  unfoldable pub fresh : Slot F → ℕ → Slot F
  fresh s epoch =
      if s.epoch == epoch then s else record { epoch = epoch; count = 0; rates = no_rates }

  unfoldable pub counted : Slot F → Rates F → Slot F
  counted s rates = record s {
    count = s.count + 1;
    rates = mean_rates s.rates rates (a.of_nat (s.count + 1));
  }

  -- `ring.add`
  unfoldable pub add_to_ring : RateRing F → Sample F → RateRing F
  add_to_ring r s =
      let epoch = s.seen_at / r.resolution in
      let i = epoch % length r.slots in
      record r {
        slots = set_slot r.slots i (counted (fresh (slot_at empty_slot r.slots i) epoch) s.rates);
      }

  -- `interfaceRings.add`
  unfoldable pub add_to_rings : InterfaceRings F → Sample F → InterfaceRings F
  add_to_rings r s = record {
    fine = add_to_ring r.fine s;
    medium = add_to_ring r.medium s;
    coarse = add_to_ring r.coarse s;
    last = some s;
  }
