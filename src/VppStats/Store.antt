-- ===== src/VppStats/Store.antt =====
-- internal/vppstats/store.go, the type `Store`: the rings of every interface, found by name or alias.
use Prim.Native.String.{String}
use flowspec_vpp_agent.Prelude.{
  ℕ, zero, suc, ◌+◌, ◌-◌, ◌/◌, Bool, not, ◌&&◌, List, [], ◌∷◌, map, Option, none, some, ltb, leb,
  ◌==◌, ◌%◌, if◌then◌else◌, length, beq, string_eq,
}
use flowspec_vpp_agent.Data.Assoc.{lookup, insert}
use flowspec_vpp_agent.VppStats.{
  Arithmetic, Rates, Sample, RingConfig, with_defaults, Slot, RateRing, InterfaceRings, slot_at,
  choose_ring, no_rates, empty_slot, add_rates, max_rates, scale_rates, new_interface_rings,
  add_to_rings,
}

-- An alias stands for the name whose rings it points to; the rings of a name are never replaced.
pub record Store (F : Type 0) : Type 0 where
  pub rings : List (String × InterfaceRings F)
  pub by_alias : List (String × String)
  pub total : Rates F
  pub config : RingConfig

pub record InterfaceSnapshot (F : Type 0) : Type 0 where
  pub name : String
  pub seen_at : ℕ
  pub rates : Rates F

pub record Sums (F : Type 0) : Type 0 where
  pub sum : Rates F
  pub peak : Rates F
  pub populated : ℕ

module _ {F : Type 0} (a : Arithmetic F) where
  -- `NewStore`
  unfoldable pub new_store : RingConfig → Store F
  new_store c = record { rings = []; by_alias = []; total = no_rates a; config = with_defaults c }

  -- `r.last.rates()`; the zero sample has zero rates.
  unfoldable pub last_rates : InterfaceRings F → Rates F
  last_rates r = elim (r.last) [ none ↦ no_rates a | some s ↦ s.rates ]

  unfoldable pub sum_from : Rates F → List (String × InterfaceRings F) → Rates F
  sum_from t [] = t
  sum_from t ((_, r) ∷ rings) = sum_from (add_rates a t (last_rates r)) rings

  -- `recomputeTotal`, in the order in which the rings stand
  unfoldable pub recompute_total : Store F → Store F
  recompute_total s = record s { total = sum_from (no_rates a) s.rings }

  unfoldable pub rings_of : Store F → String → InterfaceRings F
  rings_of s name = elim (lookup name s.rings) [
    | some r ↦ r
    | none ↦ new_interface_rings a s.config
  ]

  unfoldable pub enter_aliases :
      String → List String → List (String × String) → List (String × String)
  enter_aliases name [] m = m
  enter_aliases name (x ∷ xs) m =
      enter_aliases name xs (if not (beq x "") && not (beq x name) then insert x name m else m)

  -- `Store.Add`
  unfoldable pub add : Store F → Sample F → Store F
  add s sample = recompute_total (record s {
    rings = insert sample.name (add_to_rings a (rings_of s sample.name) sample) s.rings;
    by_alias = enter_aliases sample.name sample.aliases s.by_alias;
  })

  -- `Interfaces`
  unfoldable pub interfaces : Store F → ℕ
  interfaces s = length s.rings

  -- `findRing`
  unfoldable pub find_ring : Store F → String → Option (InterfaceRings F)
  find_ring s name = elim (lookup name s.rings) [
    | some r ↦ some r
    | none ↦ elim (lookup name s.by_alias) [
      | none ↦ none
      | some canonical ↦ lookup canonical s.rings
    ]
  ]

  unfoldable pub snapshot_of : String × InterfaceRings F → InterfaceSnapshot F
  snapshot_of (name, r) = record {
    name = name;
    seen_at = elim (r.last) [ none ↦ 0 | some s ↦ s.seen_at ];
    rates = last_rates r;
  }

  -- `Snapshot`
  unfoldable pub snapshot : Store F → List (InterfaceSnapshot F)
  snapshot s = map snapshot_of s.rings

  -- `InterfaceRates`
  unfoldable pub interface_rates : Store F → String → Option (Rates F)
  interface_rates s name = elim (find_ring s name) [ none ↦ none | some r ↦ some (last_rates r) ]

  -- `TotalRates`
  unfoldable pub total_rates : Store F → Rates F
  total_rates s = s.total

  unfoldable pub count_slot : Sums F → Slot F → ℕ → Sums F
  count_slot t s epoch =
      if s.epoch == epoch
      then record {
        sum = add_rates a t.sum s.rates;
        peak = max_rates a t.peak s.rates;
        populated = t.populated + 1;
      }
      else t

  -- The loop of `ring.aggregate` over the epochs from `end - count + 1` to `end`; no slot has a
  -- negative epoch.
  unfoldable pub scan : RateRing F → ℕ → ℕ → Sums F → Sums F
  scan r end zero t = t
  scan r end (suc k) t = scan r end k (
      if leb k end
      then count_slot t (slot_at (empty_slot a) r.slots ((end - k) % length r.slots)) (end - k)
      else t)

  -- `ring.aggregate`
  unfoldable pub aggregate : RateRing F → ℕ → ℕ → ℕ → Bool → Rates F
  aggregate r now window offset peak =
      let n = window / r.resolution in
      let t =
        scan r ((now - offset) / r.resolution) (if ltb n 1 then 1 else n)
          (record { sum = no_rates a; peak = no_rates a; populated = 0 }) in
      if peak
      then t.peak
      else if t.populated == 0
      then no_rates a
      else scale_rates a t.sum (a.quotient (a.of_nat 1) (a.of_nat t.populated))

  unfoldable pub window_of : InterfaceRings F → ℕ → ℕ → ℕ → Bool → Option (Rates F)
  window_of r now window offset peak = elim (choose_ring r window offset) [
    | none ↦ none
    | some ring ↦ some (aggregate ring now window offset peak)
  ]

  -- `InterfaceWindow`
  unfoldable pub interface_window : Store F → String → ℕ → ℕ → ℕ → Bool → Option (Rates F)
  interface_window s name now window offset peak = elim (find_ring s name) [
    | none ↦ none
    | some r ↦ window_of r now window offset peak
  ]

  unfoldable pub add_window : Option (Rates F) → Option (Rates F) → Option (Rates F)
  add_window best none = best
  add_window none (some w) = some (add_rates a (no_rates a) w)
  add_window (some t) (some w) = some (add_rates a t w)

  unfoldable pub total_from :
      Option (Rates F) → List (String × InterfaceRings F) → ℕ → ℕ → ℕ → Bool → Option (Rates F)
  total_from t [] now window offset peak = t
  total_from t ((_, r) ∷ rings) now window offset peak =
      total_from (add_window t (window_of r now window offset peak)) rings now window offset peak

  -- `TotalWindow`; `none` is `any == false`, where the total is zero.
  unfoldable pub total_window : Store F → ℕ → ℕ → ℕ → Bool → Option (Rates F)
  total_window s now window offset peak = total_from none s.rings now window offset peak
