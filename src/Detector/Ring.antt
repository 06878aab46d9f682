-- ===== src/Detector/Ring.antt =====
-- internal/detector/store.go, the type `sampleRing`: counters of a time window in slots of one
-- resolution. Times are nanoseconds since the Unix epoch and not before it.
use flowspec_vpp_agent.Prelude.{
  ℕ, zero, suc, ◌+◌, ◌-◌, ◌*◌, ◌/◌, ◌%◌, ◌^◌, ◌≤◌, ◌<◌, ◌≡◌, Bool, true, false, List, [], ◌∷◌,
  Option, none, some, ltb, leb, ◌==◌, if◌then◌else◌, length, max,
}
pub mod Window
pub mod Sums

pub record Slot : Type 0 where
  pub epoch : ℕ  -- int64
  pub packets : ℕ  -- uint64
  pub bytes : ℕ  -- uint64

pub record SampleRing : Type 0 where
  pub slots : List Slot
  pub resolution : ℕ

-- Arithmetic of uint64
abbrev pub wrap : ℕ → ℕ
wrap v = v % 2 ^ 64

abbrev pub no_slot : Slot
no_slot = record { epoch = 0; packets = 0; bytes = 0 }

-- `slotIndex` of an epoch that is not negative
unfoldable pub slot_index : ℕ → ℕ → ℕ
slot_index epoch n = epoch % n

unfoldable pub get_or : List Slot → ℕ → Slot
get_or [] i = no_slot
get_or (s ∷ ss) zero = s
get_or (s ∷ ss) (suc i) = get_or ss i

unfoldable pub set : List Slot → ℕ → Slot → List Slot
set [] i v = []
set (s ∷ ss) zero v = v ∷ ss
set (s ∷ ss) (suc i) v = s ∷ set ss i v

unfoldable pub make : ℕ → List Slot
make zero = []
make (suc n) = no_slot ∷ make n

-- `newSampleRing`
unfoldable pub new_sample_ring : ℕ → ℕ → SampleRing
new_sample_ring slots resolution = record { slots = make slots; resolution = resolution }

-- `newOptionalSampleRing`
unfoldable pub new_optional_sample_ring : ℕ → ℕ → Option SampleRing
new_optional_sample_ring slots resolution =
    if slots == 0
    then none
    else if resolution == 0
    then none
    else some (new_sample_ring slots resolution)

-- `sampleRing.epoch`
unfoldable pub epoch_of : SampleRing → ℕ → ℕ
epoch_of r time = time / r.resolution

-- `r.slots[slotIndex(epoch, len(r.slots))]`
unfoldable pub slot_at : SampleRing → ℕ → Slot
slot_at r epoch = get_or r.slots (slot_index epoch (length r.slots))

-- The slot of an epoch, cleared if it holds an older one
unfoldable pub fresh : Slot → ℕ → Slot
fresh s epoch = if s.epoch == epoch then s else record { epoch = epoch; packets = 0; bytes = 0 }

-- The counters of a slot with a sample added
unfoldable pub counted : Slot → ℕ → ℕ → Slot
counted s packet_len weight = record s {
  packets = wrap (s.packets + weight);
  bytes = wrap (s.bytes + wrap (packet_len * weight));
}

-- `sampleRing.add`, from the epoch on
unfoldable pub add_at : SampleRing → ℕ → ℕ → ℕ → SampleRing
add_at r epoch packet_len weight = record r {
  slots =
      set r.slots (slot_index epoch (length r.slots))
        (counted (fresh (slot_at r epoch) epoch) packet_len weight);
}

-- `sampleRing.add`
unfoldable pub add : SampleRing → ℕ → ℕ → ℕ → SampleRing
add r time packet_len weight = add_at r (epoch_of r time) packet_len weight

-- The variables of the loops in `aggregate` and `rate`
pub record Totals : Type 0 where
  pub packets : ℕ
  pub bytes : ℕ
  pub max_packets : ℕ
  pub max_bytes : ℕ

abbrev pub no_totals : Totals
no_totals = record { packets = 0; bytes = 0; max_packets = 0; max_bytes = 0 }

unfoldable pub count_slot : Totals → Slot → ℕ → Totals
count_slot t s epoch =
    if s.epoch == epoch
    then record {
      packets = wrap (t.packets + s.packets);
      bytes = wrap (t.bytes + s.bytes);
      max_packets = max t.max_packets s.packets;
      max_bytes = max t.max_bytes s.bytes;
    }
    else t

-- The loop over the epochs from `end - count + 1` to `end`; no slot has a negative epoch.
unfoldable pub scan : SampleRing → ℕ → ℕ → Totals → Totals
scan r end zero t = t
scan r end (suc k) t =
    scan r end k (if leb k end then count_slot t (slot_at r (end - k)) (end - k) else t)

pub data MetricKind : Type 0 where
  metric_pps metric_bps : MetricKind

pub data AggKind : Type 0 where
  agg_avg agg_sum agg_max : AggKind

-- The parts of `term` that a ring reads
pub record Term : Type 0 where
  pub metric : MetricKind
  pub agg : AggKind
  pub window : ℕ
  pub offset : ℕ
  pub slots : ℕ

-- A float64 before it is rounded: a number, or a number for so many nanoseconds.
pub data Reading : Type 0 where
  count : ℕ → Reading
  per : ℕ → ℕ → Reading

unfoldable pub in_bits : MetricKind → ℕ → ℕ → ℕ
in_bits metric_bps packets bytes = wrap (bytes * 8)
in_bits metric_pps packets bytes = packets

unfoldable pub over : ℕ → ℕ → Reading
over v duration = if duration == 0 then count 0 else per v duration

unfoldable pub reduce : AggKind → MetricKind → ℕ → ℕ → Totals → Reading
reduce agg_sum metric window resolution t = count (in_bits metric t.packets t.bytes)
reduce agg_max metric window resolution t =
    over (in_bits metric t.max_packets t.max_bytes) resolution
reduce agg_avg metric window resolution t = over (in_bits metric t.packets t.bytes) window

-- `sampleRing.aggregate`
unfoldable pub aggregate : SampleRing → ℕ → Term → Reading
aggregate r now t =
    if t.slots == 0
    then count 0
    else reduce t.agg t.metric t.window r.resolution
        (scan r (epoch_of r (now - t.offset)) t.slots no_totals)

-- `sampleRing.rate`
unfoldable pub rate : SampleRing → ℕ → ℕ → MetricKind → Reading
rate r now slots metric =
    if slots == 0
    then count 0
    else let t = scan r (epoch_of r now) slots no_totals in
      per (in_bits metric t.packets t.bytes) (r.resolution * slots)
