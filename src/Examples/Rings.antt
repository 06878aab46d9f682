-- ===== src/Examples/Rings.antt =====
-- Rings, pools and rate stores on concrete inputs, and the theorems on them applied.
use flowspec_vpp_agent.Prelude.{
  ℕ, ◌+◌, ◌-◌, ◌*◌, ◌/◌, ◌≡◌, ◌≢◌, ◌≤◌, refl, Bool, true, List, [], ◌∷◌, none, ltb, max, string_eq,
  nat_eq, arith,
}
use flowspec_vpp_agent.Data.Assoc.{lookup, insert}
use flowspec_vpp_agent.Detector.Ring.{
  Term, wrap, new_sample_ring, aggregate, count, in_bits, agg_sum, metric_bps,
}
use flowspec_vpp_agent.Detector.Ring.Sums.{
  Added, replay, sum_if, in_window, weight_of, octets_of, last_epoch, aggregate-sum,
}
use flowspec_vpp_agent.Detector.Pool.{Instance, InstanceStore, HistorySpec, new_instance}
use flowspec_vpp_agent.VppStats.{Arithmetic, Sample, RingConfig, ring_covers, with_defaults, covers}
use flowspec_vpp_agent.VppStats.Store.{
  new_store, interface_rates, interface_window, add, find_ring, rings_of, recompute_total,
  enter_aliases,
}
use flowspec_vpp_agent.VppStats.Coverage.{add_all, covers-interface_window}

-- Four slots of ten nanoseconds; the second sample of the ring's first slot is nine slots later.
abbrev log : List Added
log =
    record { time = 5; packet_len = 100; weight = 2 }
    ∷ record { time = 83; packet_len = 60; weight = 3 }
    ∷ record { time = 97; packet_len = 40; weight = 5 }
    ∷ []

abbrev term : Term
term = record { metric = metric_bps; agg = agg_sum; window = 20; offset = 0; slots = 2 }

ring_recent : last_epoch 10 0 log + 2 ≤ (99 - 0) / 10 + 4
unfolding last_epoch
ring_recent = omega arith

aggregate-sum_example :
    aggregate (replay (new_sample_ring 4 10) log) 99 term
    ≡ count (
        in_bits metric_bps
          (wrap (sum_if (in_window 10 ((99 - 0) / 10) 2) weight_of log))
          (wrap (sum_if (in_window 10 ((99 - 0) / 10) 2) octets_of log)))
aggregate-sum_example = aggregate-sum 4 10 log 99 term (omega arith) (omega arith) ring_recent refl

abbrev history : HistorySpec
history = record {
  max_instances = 1;
  fine_resolution = 10;
  fine_slots = 4;
  medium_resolution = 0;
  medium_slots = 0;
  coarse_resolution = 0;
  coarse_slots = 0;
}

-- A full pool of one target, 7; a target's estimate is its number.
abbrev pool : InstanceStore ℕ
pool = record { max = 1; history = history; items = (7, new_instance 7 history 0) ∷ [] }

abbrev visit : List (ℕ × Instance ℕ) → List (ℕ × Instance ℕ)
visit [] = []
visit ((k, i) ∷ items) = (k, i) ∷ []

abbrev below : ℕ → ℕ → Bool
below x y = ltb x y

-- Rates as natural numbers
abbrev arithmetic : Arithmetic ℕ
arithmetic = record {
  zero_of = 0;
  plus = λ x y. x + y;
  minus = λ x y. x - y;
  times = λ x y. x * y;
  quotient = λ x y. x / y;
  larger = λ x y. max x y;
  of_nat = λ n. n;
}

abbrev config : RingConfig
config = record {
  fine_resolution = 10;
  fine_duration = 50;
  medium_resolution = 20;
  medium_duration = 100;
  coarse_resolution = 40;
  coarse_duration = 200;
}

abbrev polled : Sample ℕ
polled = record {
  seen_at = 35;
  name = "eth0";
  aliases = "ifindex:3" ∷ [];
  rates = record {
    rx_pps = 5;
    tx_pps = 6;
    rx_bps = 7;
    tx_bps = 8;
    sw_drop_pps = 0;
    hw_drop_pps = 0;
  };
}

covered : covers config 20 20 ≡ true
unfolding covers with_defaults ring_covers
covered = refl

found_by_alias :
    interface_rates arithmetic
      (add_all arithmetic (new_store arithmetic config) (polled ∷ []))
      "ifindex:3"
    ≢ none
unfolding interface_rates find_ring add_all add new_store rings_of recompute_total enter_aliases
    lookup insert
found_by_alias h = cc

covers-interface_window_example :
    interface_window arithmetic
      (add_all arithmetic (new_store arithmetic config) (polled ∷ []))
      "ifindex:3"
      45
      20
      20
      true
    ≢ none
covers-interface_window_example =
    covers-interface_window arithmetic config (polled ∷ []) "ifindex:3" 45 20 20 true covered
      found_by_alias
