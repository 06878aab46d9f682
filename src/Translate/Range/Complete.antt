-- ===== src/Translate/Range/Complete.antt =====
-- `reduce_range` accepts every list of operators that admits one contiguous range.
use flowspec_vpp_agent.Prelude.{
  ℕ, ◌+◌, ◌≤◌, ◌<◌, ◌^◌, ◌≡◌, refl, ◌∙◌, Bool, true, false, ◌&&◌, List, [], ◌∷◌, All, leb, arith,
}
use flowspec_vpp_agent.Flowspec.{NumericOp}
use flowspec_vpp_agent.Semantics.Operators.{ops_hold}
use flowspec_vpp_agent.Translate.Unsupported.{ok}
use flowspec_vpp_agent.Translate.Interval.{Interval}
use flowspec_vpp_agent.Translate.Interval.Covers.{covers}
use flowspec_vpp_agent.Translate.Interval.Canonical.{CanonicalFrom, Canonical}
use flowspec_vpp_agent.Translate.Interval.Operator.{op_to_set_total}
use flowspec_vpp_agent.Translate.Range.{Loop, loop_start, round, loop, single, reduce_range}
use flowspec_vpp_agent.Translate.Range.Sound.{final, covers-final}

loop_total :
    (limit : ℕ) (ops : List NumericOp) (first : Bool) (l : Loop)
    → All (λ op. op.value ≤ limit) ops
    → (l' : Loop) × (loop limit first ops l ≡ ok l')
unfolding loop
loop_total limit [] first l h = (l, refl)
loop_total limit (op ∷ ops) first l h =
    let (set, e) = op_to_set_total op limit h.0 in
    let (l', e') = loop_total limit ops false (round first op set l) h.1 in (l', rw e e')

-- Nothing below the first interval is covered.
below-CanonicalFrom :
    (limit a x : ℕ) (s : List Interval) → CanonicalFrom limit a s → x < a → covers s x ≡ false
unfolding covers
below-CanonicalFrom limit a x [] h lt = refl
below-CanonicalFrom limit a x (v ∷ s) h lt =
    ground (arith, below-CanonicalFrom limit (v.hi + 2) x s h.3 (omega arith))

-- A canonical set that is one range has one interval.
single-range :
    (limit lo hi : ℕ) (s : List Interval)
    → lo ≤ hi
    → hi ≤ limit
    → Canonical limit s
    → ((x : ℕ) → x ≤ limit → covers s x ≡ (leb lo x && leb x hi))
    → single s ≡ ok (lo, hi)
unfolding single covers
single-range limit lo hi [] le bound c h = ground (arith, h lo (omega arith))
single-range limit lo hi (v ∷ []) le bound c h =
    ground (arith, h lo (omega arith), h hi bound, h v.lo (omega arith), h v.hi c.2)
single-range limit lo hi (v ∷ w ∷ s) le bound c h = ground (
  arith,
  h v.hi (omega arith),
  h w.lo (omega arith),
  h (v.hi + 1) (omega arith),
  below-CanonicalFrom limit (w.hi + 2) (v.hi + 1) s c.3.3 (omega arith),
)

-- When the operands are at most the limit, which a uint64 holds, and the list holds exactly on
-- one non-empty range of [0, limit], `reduce_range` accepts it with that range.
pub reduce_range_complete :
    (ops : List NumericOp) (limit lo hi : ℕ)
    → limit < 2 ^ 64
    → All (λ op. op.value ≤ limit) ops
    → lo ≤ hi
    → hi ≤ limit
    → ((x : ℕ) → x ≤ limit → ops_hold ops x ≡ (leb lo x && leb x hi))
    → reduce_range ops limit ≡ ok (lo, hi)
unfolding reduce_range ops_hold
reduce_range_complete [] limit lo hi in_64 small le bound h =
    ground (arith, h 0 (omega arith), h limit (omega arith))
reduce_range_complete (op ∷ ops) limit lo hi in_64 small le bound h =
    let (l, e) = loop_total limit (op ∷ ops) true loop_start small in
    rw e (
      single-range limit lo hi (final limit in_64 l) le bound
        (covers-final limit in_64 op ops l 0 (omega arith) e).0
        (λ x hx. (covers-final limit in_64 op ops l x hx e).1 ∙ h x hx))
