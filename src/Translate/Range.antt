-- ===== src/Translate/Range.antt =====
-- internal/translate/port.go, `reduceRange`: an operator list as one contiguous range.
pub mod Sound
pub mod Complete
use flowspec_vpp_agent.Prelude.{ℕ, Bool, true, false, List, [], ◌∷◌, if◌then◌else◌}
use flowspec_vpp_agent.Flowspec.{NumericOp}
use flowspec_vpp_agent.Translate.Unsupported.{
  Result, ok, unsupported, unsupported_expression, ◌>>=◌,
}
use flowspec_vpp_agent.Translate.Interval.{
  Interval, normalize, union_sets, intersect_sets, op_to_set,
}

-- The variables of the loop.
pub record Loop : Type 0 where
  pub result : List Interval
  pub cur : List Interval
  pub cur_started : Bool

abbrev pub loop_start : Loop
loop_start = record { result = []; cur = []; cur_started = false }

-- `closeTerm`
unfoldable pub close_term : Loop → Loop
close_term l = record {
  result = if l.cur_started then union_sets l.result l.cur else l.result;
  cur = [];
  cur_started = false;
}

-- The part of the loop body that takes in the operator's set.
unfoldable pub take_set : List Interval → Loop → Loop
take_set set l =
    if l.cur_started
    then record l { cur = intersect_sets l.cur set }
    else record l { cur = set; cur_started = true }

-- The loop body; `first` says that i == 0.
unfoldable pub round : Bool → NumericOp → List Interval → Loop → Loop
unfolding close_term take_set
round first op set l = take_set set (if first then l else if op.and then l else close_term l)

unfoldable pub loop : ℕ → Bool → List NumericOp → Loop → Result Loop
unfolding round
loop limit first [] l = ok l
loop limit first (op ∷ ops) l = do
  set ← op_to_set op limit
  loop limit false ops (round first op set l)

-- The tests on the final set.
unfoldable pub single : List Interval → Result (ℕ × ℕ)
single [] = unsupported unsupported_expression
single (v ∷ []) = ok (v.lo, v.hi)
single (v ∷ w ∷ s) = unsupported unsupported_expression

unfoldable pub reduce_range : List NumericOp → ℕ → Result (ℕ × ℕ)
unfolding loop single
reduce_range [] limit = ok (0, limit)
reduce_range (op ∷ ops) limit = do
  l ← loop limit true (op ∷ ops) loop_start
  single (normalize (close_term l).result)
