-- ===== src/Detector/Pool.antt =====
-- internal/detector/store.go, the types `instance` and `instanceStore`: the targets that a rule
-- tracks. Estimates are float64, here any type with the test `below`; `visit` is the order in which
-- Go ranges over the map.
use flowspec_vpp_agent.Prelude.{
  ℕ, zero, suc, ◌+◌, ◌-◌, ◌≤◌, ◌<◌, ◌≡◌, Bool, true, false, not, List, [], ◌∷◌, Option, none, some,
  ltb, leb, ◌==◌, if◌then◌else◌, length, Eq,
}
use flowspec_vpp_agent.Data.Assoc.{lookup, insert, delete}
use flowspec_vpp_agent.Detector.Sample.{IngressName, unnamed}
use flowspec_vpp_agent.Detector.Ring.{SampleRing, new_sample_ring, new_optional_sample_ring}
use flowspec_vpp_agent.Detector.Ring
pub mod Weakest
pub mod Admission

pub record HistorySpec : Type 0 where
  pub max_instances : ℕ
  pub fine_resolution : ℕ
  pub fine_slots : ℕ
  pub medium_resolution : ℕ
  pub medium_slots : ℕ
  pub coarse_resolution : ℕ
  pub coarse_slots : ℕ

-- A time that may be zero is an option. The diversity estimators are left out.
pub record Instance (K : Type 0) : Type 0 where
  pub key : K
  pub fine : SampleRing
  pub medium : Option SampleRing
  pub coarse : Option SampleRing
  pub last_seen : ℕ
  pub last_event : Option ℕ
  pub true_since : Option ℕ
  pub last_ingress_if : IngressName

pub data RingKind : Type 0 where
  ring_fine ring_medium ring_coarse : RingKind

unfoldable pub add_optional : Option SampleRing → ℕ → ℕ → ℕ → Option SampleRing
add_optional none now packet_len weight = none
add_optional (some r) now packet_len weight = some (Ring.add r now packet_len weight)

-- The test of `shouldEmit`
unfoldable pub is_due : Option ℕ → ℕ → ℕ → Bool
is_due none now interval = true
is_due (some last) now interval = leb (last + interval) now

module _ {K : Type 0} where
  -- `newInstance`
  unfoldable pub new_instance : K → HistorySpec → ℕ → Instance K
  new_instance key h now = record {
    key = key;
    fine = new_sample_ring h.fine_slots h.fine_resolution;
    medium = new_optional_sample_ring h.medium_slots h.medium_resolution;
    coarse = new_optional_sample_ring h.coarse_slots h.coarse_resolution;
    last_seen = now;
    last_event = none;
    true_since = none;
    last_ingress_if = unnamed;
  }

  -- `instance.add`
  unfoldable pub add_sample : Instance K → ℕ → ℕ → ℕ → Instance K
  add_sample i now packet_len weight = record i {
    fine = Ring.add i.fine now packet_len weight;
    medium = add_optional i.medium now packet_len weight;
    coarse = add_optional i.coarse now packet_len weight;
    last_seen = now;
  }

  -- `instance.ringFor`
  unfoldable pub ring_for : Instance K → RingKind → Option SampleRing
  ring_for i ring_medium = i.medium
  ring_for i ring_coarse = i.coarse
  ring_for i ring_fine = some i.fine

  -- `instance.shouldEmit`
  unfoldable pub should_emit : Instance K → ℕ → ℕ → Instance K × Bool
  should_emit i now interval =
      if is_due i.last_event now interval
      then (record i { last_event = some now }, true)
      else (i, false)

pub record InstanceStore (K : Type 0) : Type 0 where
  pub max : ℕ
  pub history : HistorySpec
  pub items : List (K × Instance K)

abbrev pub admit_sample_size : ℕ
admit_sample_size = 16

-- `newInstanceStore`
unfoldable pub new_instance_store : {K : Type 0} → HistorySpec → InstanceStore K
new_instance_store h = record { max = h.max_instances; history = h; items = [] }

module _ {K F : Type 0} (below : F → F → Bool) (estimate : K → F) where
  unfoldable pub weaker : Option (K × F) → K → Option (K × F)
  weaker none k = some (k, estimate k)
  weaker (some (victim, least)) k =
      if below (estimate k) least then some (k, estimate k) else some (victim, least)

  -- The loop of `weakestOfSample`, by the rounds that are left
  unfoldable pub weakest_from : ℕ → Option (K × F) → List (K × Instance K) → Option (K × F)
  weakest_from zero best items = best
  weakest_from (suc n) best [] = best
  weakest_from (suc n) best ((k, _) ∷ items) = weakest_from n (weaker best k) items

module _ {K F : Type 0} ⦃e : Eq K⦄ (below : F → F → Bool) (estimate : K → F)
    (visit : List (K × Instance K) → List (K × Instance K)) where
  -- `weakestOfSample`
  unfoldable pub weakest_of_sample : InstanceStore K → Option (K × F)
  weakest_of_sample s = weakest_from below estimate admit_sample_size none (visit s.items)

  -- The end of `admit`, with the victim that was found
  unfoldable pub evict :
      InstanceStore K → K → ℕ → Option (K × F) → InstanceStore K × Option (Instance K)
  evict s key now none = (s, none)
  evict s key now (some (victim, least)) =
      if not (below least (estimate key))
      then (s, none)
      else let i = new_instance key s.history now in
        (record s { items = insert key i (delete victim s.items) }, some i)

  -- `admit`
  unfoldable pub admit : InstanceStore K → K → ℕ → InstanceStore K × Option (Instance K)
  admit s key now = elim (lookup key s.items) [
    | some i ↦ (s, some i)
    | none ↦
        if ltb (length s.items) s.max
        then (let i = new_instance key s.history now in
            (record s { items = insert key i s.items }, some i))
        else evict s key now (weakest_of_sample s)
  ]
