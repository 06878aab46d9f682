-- ===== src/Detector/Ring/Sums.antt =====
-- What a window of a ring sums up, after a sequence of samples.
use mathlib.Core.Path.{fun_ext}
use flowspec_vpp_agent.Prelude.{
  ℕ, zero, suc, ◌+◌, ◌-◌, ◌*◌, ◌/◌, ◌%◌, ◌≤◌, ◌<◌, ◌≡◌, refl, ◌∙◌, ap, ap₂, sym, Bool, ◌&&◌, List,
  [], ◌∷◌, ltb, leb, ◌==◌, if◌then◌else◌, length, inl, inr, Bool-cases, arith,
}
use flowspec_vpp_agent.Detector.Ring.{
  Slot, SampleRing, wrap, no_slot, slot_index, get_or, make, new_sample_ring, slot_at, epoch_of,
  add_at, add, Totals, no_totals, count_slot, scan, Term, MetricKind, count, in_bits, reduce,
  aggregate, agg_sum, metric_pps, metric_bps,
}
use flowspec_vpp_agent.Detector.Ring.Window.{
  Tracks, stored, packets_of, bytes_of, add_at-packets, add_at-bytes,
}

-- A sample as `add` takes it
pub record Added : Type 0 where
  pub time : ℕ
  pub packet_len : ℕ
  pub weight : ℕ

abbrev pub weight_of : Added → ℕ
weight_of a = a.weight

abbrev pub octets_of : Added → ℕ
octets_of a = a.packet_len * a.weight

unfoldable pub replay : SampleRing → List Added → SampleRing
replay r [] = r
replay r (a ∷ as') = replay (add r a.time a.packet_len a.weight) as'

-- The sum over the samples that pass a test
unfoldable pub sum_if : (Added → Bool) → (Added → ℕ) → List Added → ℕ
sum_if p f [] = 0
sum_if p f (a ∷ as') = (if p a then f a else 0) + sum_if p f as'

-- The epochs, at a resolution, do not go back from `last` on.
abbrev pub InOrder : ℕ → ℕ → List Added → Type 0
InOrder res last [] = Unit
InOrder res last (a ∷ as') = (last ≤ a.time / res) × InOrder res (a.time / res) as'

unfoldable pub last_epoch : ℕ → ℕ → List Added → ℕ
last_epoch res last [] = last
last_epoch res last (a ∷ as') = last_epoch res (a.time / res) as'

-- The epoch is one of the `k` that end with `end`.
abbrev pub in_window : ℕ → ℕ → ℕ → Added → Bool
in_window res end k a = leb (a.time / res) end && ltb end (a.time / res + k)

abbrev in_epoch : ℕ → ℕ → Added → Bool
in_epoch res e a = e == a.time / res

window_sum : (ℕ → ℕ) → ℕ → ℕ → ℕ
window_sum g end zero = 0
window_sum g end (suc k) = (if leb k end then g (end - k) else 0) + window_sum g end k

scan-packets :
    (r : SampleRing) (end k x : ℕ) (t : Totals)
    → t.packets ≡ wrap x
    → (scan r end k t).packets ≡ wrap (x + window_sum (stored packets_of r) end k)
unfolding scan window_sum count_slot stored
scan-packets r end zero x t h = omega (arith, h)
scan-packets r end (suc k) x t h =
    scan-packets r end k (x + (if leb k end then stored packets_of r (end - k) else 0)) _
      (ground (arith, h))
    ∙ ground arith

scan-bytes :
    (r : SampleRing) (end k x : ℕ) (t : Totals)
    → t.bytes ≡ wrap x
    → (scan r end k t).bytes ≡ wrap (x + window_sum (stored bytes_of r) end k)
unfolding scan window_sum count_slot stored
scan-bytes r end zero x t h = omega (arith, h)
scan-bytes r end (suc k) x t h =
    scan-bytes r end k (x + (if leb k end then stored bytes_of r (end - k) else 0)) _
      (ground (arith, h))
    ∙ ground arith

-- Sums of counters that agree up to wrap-around agree up to wrap-around.
window_sum-wrap :
    (g P : ℕ → ℕ) (n last end k : ℕ)
    → last + k ≤ end + n
    → ((e : ℕ) → last < e + n → g e ≡ wrap (P e))
    → wrap (window_sum g end k) ≡ wrap (window_sum P end k)
unfolding window_sum
window_sum-wrap g P n last end zero h f = refl
window_sum-wrap g P n last end (suc k) h f =
    ground (arith, f (end - k), window_sum-wrap g P n last end k)

no_epochs :
    (res end : ℕ) (f : Added → ℕ) (log : List Added) → sum_if (in_window res end 0) f log ≡ 0
unfolding sum_if
no_epochs res end f [] = refl
no_epochs res end f (a ∷ as') = ground (arith, no_epochs res end f as')

-- A window of one epoch more
one_more :
    (res end k : ℕ) (f : Added → ℕ) (log : List Added)
    → (if leb k end then sum_if (in_epoch res (end - k)) f log else 0)
        + sum_if (in_window res end k) f log
      ≡ sum_if (in_window res end (suc k)) f log
unfolding sum_if
one_more res end k f [] = ground arith
one_more res end k f (a ∷ as') = ground (arith, one_more res end k f as')

window_sum-in_window :
    (res : ℕ) (f : Added → ℕ) (log : List Added) (end k : ℕ)
    → window_sum (λ e. sum_if (in_epoch res e) f log) end k ≡ sum_if (in_window res end k) f log
unfolding window_sum
window_sum-in_window res f log end zero = sym (no_epochs res end f log)
window_sum-in_window res f log end (suc k) =
    ap ((if leb k end then sum_if (in_epoch res (end - k)) f log else 0) +◌)
      (window_sum-in_window res f log end k)
    ∙ one_more res end k f log

-- The tallies after a log
tally : ℕ → (Added → ℕ) → List Added → (ℕ → ℕ) → ℕ → ℕ
tally res f [] P = P
tally res f (a ∷ as') P = tally res f as' (λ e. if e == a.time / res then P e + f a else P e)

tally_lem :
    (res : ℕ) (f : Added → ℕ) (log : List Added) (P : ℕ → ℕ) (e : ℕ)
    → tally res f log P e ≡ P e + sum_if (in_epoch res e) f log
unfolding tally sum_if
tally_lem res f [] P e = omega arith
tally_lem res f (a ∷ as') P e =
    tally_lem res f as' (λ e. if e == a.time / res then P e + f a else P e) e ∙ ground arith

resolution-add_at : (r : SampleRing) (e len w : ℕ) → (add_at r e len w).resolution ≡ r.resolution
unfolding add_at
resolution-add_at r e len w = refl

resolution-new_sample_ring : (n res : ℕ) → (new_sample_ring n res).resolution ≡ res
unfolding new_sample_ring
resolution-new_sample_ring n res = refl

add-eq :
    (r : SampleRing) (res : ℕ) (a : Added)
    → r.resolution ≡ res
    → add r a.time a.packet_len a.weight ≡ add_at r (a.time / res) a.packet_len a.weight
unfolding add epoch_of
add-eq r res a e = ap (λ x. add_at r (a.time / x) a.packet_len a.weight) e

replay-packets :
    (res : ℕ) (r : SampleRing) (n last : ℕ) (log : List Added) (P : ℕ → ℕ)
    → 0 < n
    → r.resolution ≡ res
    → InOrder res last log
    → Tracks packets_of r n last P
    → Tracks packets_of (replay r log) n (last_epoch res last log) (tally res weight_of log P)
unfolding replay last_epoch tally
replay-packets res r n last [] P h e o t = t
replay-packets res r n last (a ∷ as') P h e o t = rw (add-eq r res a e) (
    replay-packets res (add_at r (a.time / res) a.packet_len a.weight) n (a.time / res) as' _ h
      (resolution-add_at r (a.time / res) a.packet_len a.weight ∙ e) o.1
      (add_at-packets r n last (a.time / res) a.packet_len a.weight P h o.0 t))

replay-bytes :
    (res : ℕ) (r : SampleRing) (n last : ℕ) (log : List Added) (P : ℕ → ℕ)
    → 0 < n
    → r.resolution ≡ res
    → InOrder res last log
    → Tracks bytes_of r n last P
    → Tracks bytes_of (replay r log) n (last_epoch res last log) (tally res octets_of log P)
unfolding replay last_epoch tally
replay-bytes res r n last [] P h e o t = t
replay-bytes res r n last (a ∷ as') P h e o t = rw (add-eq r res a e) (
    replay-bytes res (add_at r (a.time / res) a.packet_len a.weight) n (a.time / res) as' _ h
      (resolution-add_at r (a.time / res) a.packet_len a.weight ∙ e) o.1
      (add_at-bytes r n last (a.time / res) a.packet_len a.weight P h o.0 t))

length-make : (n : ℕ) → length (make n) ≡ n
unfolding make
length-make zero = refl
length-make (suc n) = omega (arith, length-make n)

get_or-make : (n i : ℕ) → get_or (make n) i ≡ no_slot
unfolding make get_or
get_or-make zero i = refl
get_or-make (suc n) zero = refl
get_or-make (suc n) (suc i) = get_or-make n i

-- A new ring has counted nothing.
new_ring-Tracks :
    (field : Slot → ℕ) (n res : ℕ)
    → field no_slot ≡ 0
    → Tracks field (new_sample_ring n res) n 0 (λ _. 0)
unfolding new_sample_ring stored slot_at slot_index
new_ring-Tracks field n res z = record {
  size = length-make n;
  past = λ i. rw (get_or-make n i) (omega arith);
  kept = λ e h. rw (get_or-make n (e % length (make n)), z) (ground arith);
  none_yet = λ e h. refl;
}

resolution-replay : (r : SampleRing) (log : List Added) → (replay r log).resolution ≡ r.resolution
unfolding replay add
resolution-replay r [] = refl
resolution-replay r (a ∷ as') =
    resolution-replay (add_at r (epoch_of r a.time) a.packet_len a.weight) as'
    ∙ resolution-add_at r (epoch_of r a.time) a.packet_len a.weight

module _ (n res : ℕ) (log : List Added) (end k : ℕ) (positive : 0 < n) (ordered : InOrder res 0 log)
    (recent : last_epoch res 0 log + k ≤ end + n) where
  abbrev ring : SampleRing
  ring = replay (new_sample_ring n res) log

  windowed :
      (field : Slot → ℕ) (f : Added → ℕ)
      → Tracks field ring n (last_epoch res 0 log) (tally res f log (λ _. 0))
      → wrap (0 + window_sum (stored field ring) end k) ≡ wrap (sum_if (in_window res end k) f log)
  windowed field f t =
      let tallies : tally res f log (λ _. 0) ≡ (λ e. sum_if (in_epoch res e) f log) =
        fun_ext (λ e. let q = tally_lem res f log (λ _. 0) e in omega (arith, q)) in
      let zeroed : wrap (0 + window_sum (stored field ring) end k)
          ≡ wrap (window_sum (stored field ring) end k) =
        omega arith in
      zeroed
      ∙ (window_sum-wrap (stored field ring) (tally res f log (λ _. 0)) n (last_epoch res 0 log) end
            k recent t.kept
          ∙ ap wrap (ap (λ g. window_sum g end k) tallies ∙ window_sum-in_window res f log end k))

  scanned_packets :
      (scan ring end k no_totals).packets ≡ wrap (sum_if (in_window res end k) weight_of log)
  scanned_packets =
      scan-packets ring end k 0 no_totals refl
      ∙ windowed packets_of weight_of (
          replay-packets res (new_sample_ring n res) n 0 log (λ _. 0) positive
            (resolution-new_sample_ring n res) ordered (new_ring-Tracks packets_of n res refl))

  scanned_bytes :
      (scan ring end k no_totals).bytes ≡ wrap (sum_if (in_window res end k) octets_of log)
  scanned_bytes =
      scan-bytes ring end k 0 no_totals refl
      ∙ windowed bytes_of octets_of (
          replay-bytes res (new_sample_ring n res) n 0 log (λ _. 0) positive
            (resolution-new_sample_ring n res) ordered (new_ring-Tracks bytes_of n res refl))

scan_no_slots :
    (r : SampleRing) (end : ℕ) (m : MetricKind)
    → in_bits m (scan r end 0 no_totals).packets (scan r end 0 no_totals).bytes ≡ 0
unfolding scan in_bits
scan_no_slots r end metric_pps = refl
scan_no_slots r end metric_bps = refl

aggregate-scan :
    (r : SampleRing) (now : ℕ) (t : Term) (res : ℕ)
    → r.resolution ≡ res
    → t.agg ≡ agg_sum
    → aggregate r now t
      ≡ count (
          in_bits t.metric
            (scan r ((now - t.offset) / res) t.slots no_totals).packets
            (scan r ((now - t.offset) / res) t.slots no_totals).bytes)
unfolding aggregate reduce epoch_of
aggregate-scan r now t res q e = elim (Bool-cases (t.slots == 0)) [
  | inl z ↦
      let none_asked : t.slots ≡ 0 = ground arith in
      rw none_asked (ap count (sym (scan_no_slots r ((now - t.offset) / res) t.metric)))
  | inr z ↦ rw z (
      ap
        (λ a.
          reduce a t.metric t.window r.resolution
            (scan r (epoch_of r (now - t.offset)) t.slots no_totals))
        e
      ∙ ap
          (λ x. count (
            in_bits t.metric (scan r ((now - t.offset) / x) t.slots no_totals).packets
              (scan r ((now - t.offset) / x) t.slots no_totals).bytes))
          q)
]

-- A sum term reads off a ring of `n` slots, after samples whose epochs do not go back, the packets
-- that were added in the term's window (or their bits), up to the wrap-around of uint64, and nothing
-- older that the slots once held: for every window that lies within the `n` epochs up to the last
-- sample or later.
pub aggregate-sum :
    (n res : ℕ) (log : List Added) (now : ℕ) (t : Term)
    → 0 < n
    → InOrder res 0 log
    → last_epoch res 0 log + t.slots ≤ (now - t.offset) / res + n
    → t.agg ≡ agg_sum
    → aggregate (replay (new_sample_ring n res) log) now t
      ≡ count (
          in_bits t.metric
            (wrap (sum_if (in_window res ((now - t.offset) / res) t.slots) weight_of log))
            (wrap (sum_if (in_window res ((now - t.offset) / res) t.slots) octets_of log)))
aggregate-sum n res log now t h o r e =
    let end = (now - t.offset) / res in
    let q = resolution-replay (new_sample_ring n res) log ∙ resolution-new_sample_ring n res in
    aggregate-scan (replay (new_sample_ring n res) log) now t res q e
    ∙ ap₂ (λ p b. count (in_bits t.metric p b)) (scanned_packets n res log end t.slots h o r)
        (scanned_bytes n res log end t.slots h o r)
