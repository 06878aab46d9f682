-- ===== src/Translate/Interval/Operator.antt =====
-- `op_to_set` gives exactly the values that the operator admits.
use flowspec_vpp_agent.Prelude.{ℕ, ◌≤◌, ◌≡◌, refl, Bool, true, false, List, arith}
use flowspec_vpp_agent.Flowspec.{NumericOp}
use flowspec_vpp_agent.Semantics.Operators.{comparison, op_holds}
use flowspec_vpp_agent.Translate.Unsupported.{ok}
use flowspec_vpp_agent.Translate.Interval.{Interval, op_intervals, op_set, op_to_set}
use flowspec_vpp_agent.Translate.Interval.Covers.{covers, AllValid}

op_set-AllValid :
    (lt gt eq : Bool) (v limit : ℕ) {s : List Interval}
    → op_set lt gt eq v limit ≡ ok s
    → AllValid limit s
unfolding op_set op_intervals
op_set-AllValid false false false v limit h = ground arith
op_set-AllValid false false true v limit h = ground arith
op_set-AllValid false true false v limit h = ground arith
op_set-AllValid true false false v limit h = ground arith
op_set-AllValid false true true v limit h = ground arith
op_set-AllValid true false true v limit h = ground arith
op_set-AllValid true true false v limit h = ground arith
op_set-AllValid true true true v limit h = ground arith

covers-op_set :
    (lt gt eq : Bool) (v limit x : ℕ) {s : List Interval}
    → op_set lt gt eq v limit ≡ ok s
    → x ≤ limit
    → covers s x ≡ comparison lt gt eq v x
unfolding op_set op_intervals covers
covers-op_set false false false v limit x h hx = ground arith
covers-op_set false false true v limit x h hx = ground arith
covers-op_set false true false v limit x h hx = ground arith
covers-op_set true false false v limit x h hx = ground arith
covers-op_set false true true v limit x h hx = ground arith
covers-op_set true false true v limit x h hx = ground arith
covers-op_set true true false v limit x h hx = ground arith
covers-op_set true true true v limit x h hx = ground arith

-- The set of an operator lies within [0, limit].
pub op_to_set-AllValid :
    (op : NumericOp) (limit : ℕ) {s : List Interval} → op_to_set op limit ≡ ok s → AllValid limit s
unfolding op_to_set
op_to_set-AllValid op limit h = op_set-AllValid op.lt op.gt op.eq op.value limit h

-- Within [0, limit] it is what the operator admits.
pub covers-op_to_set :
    (op : NumericOp) (limit x : ℕ) {s : List Interval}
    → op_to_set op limit ≡ ok s
    → x ≤ limit
    → covers s x ≡ op_holds op x
unfolding op_to_set op_holds
covers-op_to_set op limit x h hx = covers-op_set op.lt op.gt op.eq op.value limit x h hx

op_set_total :
    (lt gt eq : Bool) (v limit : ℕ)
    → v ≤ limit
    → (s : List Interval) × (op_set lt gt eq v limit ≡ ok s)
unfolding op_set
op_set_total false false false v limit h = (_, refl)
op_set_total true true true v limit h = (_, refl)
op_set_total lt gt eq v limit h = (op_intervals lt gt eq v limit, ground arith)

-- An operand in range is accepted.
pub op_to_set_total :
    (op : NumericOp) (limit : ℕ)
    → op.value ≤ limit
    → (s : List Interval) × (op_to_set op limit ≡ ok s)
unfolding op_to_set
op_to_set_total op limit h = op_set_total op.lt op.gt op.eq op.value limit h
