-- ===== src/Translate/Interval.antt =====
-- internal/translate/port.go: sets of integers as lists of inclusive intervals.
pub mod Covers
pub mod Operator
pub mod Canonical
use flowspec_vpp_agent.Prelude.{
  ℕ, ◌+◌, ◌-◌, ◌%◌, ◌^◌, Bool, true, false, ◌||◌, List, [], ◌∷◌, ◌++◌, ltb, leb, ◌==◌,
  if◌then◌else◌,
}
use flowspec_vpp_agent.Flowspec.{NumericOp}
use flowspec_vpp_agent.Translate.Unsupported.{Result, ok, unsupported, unsupported_expression}

pub record Interval : Type 0 where
  pub lo : ℕ  -- uint64
  pub hi : ℕ  -- uint64

abbrev pub interval : ℕ → ℕ → Interval
interval a b = record { lo = a; hi = b }

-- The order of the `sort.Slice` call in `normalize`.
unfoldable pub before : Interval → Interval → Bool
before a b = if a.lo == b.lo then ltb a.hi b.hi else ltb a.lo b.lo

-- The sorted slice: an element goes in front of the first one that it precedes.
unfoldable pub insert : Interval → List Interval → List Interval
insert v [] = v ∷ []
insert v (w ∷ s) = if before w v then w ∷ insert v s else v ∷ w ∷ s

unfoldable pub sort : List Interval → List Interval
unfolding insert before
sort [] = []
sort (v ∷ s) = insert v (sort s)

-- The test `iv.lo <= last.hi || iv.lo == last.hi+1`, in uint64.
unfoldable pub touches : Interval → Interval → Bool
touches last iv = leb iv.lo last.hi || iv.lo == (last.hi + 1) % 2 ^ 64

-- `if iv.hi > last.hi { last.hi = iv.hi }`
unfoldable pub extend : Interval → Interval → Interval
extend last iv = if ltb last.hi iv.hi then interval last.lo iv.hi else last

-- The loop of `normalize`: `last` is the last element of `out`, and those before it are final.
unfoldable pub merge_from : Interval → List Interval → List Interval
merge_from last [] = last ∷ []
merge_from last (iv ∷ s) =
    let joined = merge_from (extend last iv) s in
    let apart = last ∷ merge_from iv s in if touches last iv then joined else apart

merge : List Interval → List Interval
merge [] = []
merge (v ∷ s) = merge_from v s

unfoldable pub normalize : List Interval → List Interval
unfolding merge merge_from touches extend
normalize s = merge (sort s)

-- The candidate of the inner loop of `intersectSets`; it counts if `lo <= hi`.
meet : Interval → Interval → Interval
meet x y = interval (if ltb x.lo y.lo then y.lo else x.lo) (if ltb y.hi x.hi then y.hi else x.hi)

-- One pass of the inner loop.
intersect_with : Interval → List Interval → List Interval
intersect_with x [] = []
intersect_with x (y ∷ b) =
    let rest = intersect_with x b in
    if leb (meet x y).lo (meet x y).hi then meet x y ∷ rest else rest

pub intersect_all : List Interval → List Interval → List Interval
intersect_all [] b = []
intersect_all (x ∷ a) b = intersect_with x b ++ intersect_all a b

unfoldable pub intersect_sets : List Interval → List Interval → List Interval
unfolding intersect_all intersect_with meet
intersect_sets a b = normalize (intersect_all a b)

unfoldable pub union_sets : List Interval → List Interval → List Interval
union_sets a b = normalize (a ++ b)

-- The second `switch` of `opToSet`, on the bits lt, gt and eq of an operand within [0, limit].
op_intervals : Bool → Bool → Bool → ℕ → ℕ → List Interval
op_intervals false false true v limit = interval v v ∷ []
op_intervals false true false v limit = if leb limit v then [] else interval (v + 1) limit ∷ []
op_intervals true false false v limit = if v == 0 then [] else interval 0 (v - 1) ∷ []
op_intervals false true true v limit = interval v limit ∷ []
op_intervals true false true v limit = interval 0 v ∷ []
op_intervals true true false v limit =
    (if ltb 0 v then interval 0 (v - 1) ∷ [] else [])
    ++ (if ltb v limit then interval (v + 1) limit ∷ [] else [])
op_intervals _ _ _ v limit = []

-- The first `switch`, which comes before the operand is checked.
op_set : Bool → Bool → Bool → ℕ → ℕ → Result (List Interval)
op_set false false false v limit = ok (interval 0 limit ∷ [])
op_set true true true v limit = ok []
op_set lt gt eq v limit =
    if ltb limit v then unsupported unsupported_expression else ok (op_intervals lt gt eq v limit)

-- `opToSet`
unfoldable pub op_to_set : NumericOp → ℕ → Result (List Interval)
unfolding op_set op_intervals
op_to_set op limit = op_set op.lt op.gt op.eq op.value limit
