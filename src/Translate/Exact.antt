-- ===== src/Translate/Exact.antt =====
-- internal/translate/icmp.go and proto.go: an operator list as a single exact value.
use flowspec_vpp_agent.Prelude.{
  ℕ, ◌%◌, ◌≤◌, ◌≡◌, true, not, ◌||◌, List, [], ◌∷◌, Option, none, some, ltb, ◌==◌, if◌then◌else◌,
  arith,
}
use flowspec_vpp_agent.Flowspec.{NumericOp}
use flowspec_vpp_agent.Semantics.Operators.{op_holds, ops_hold}
use flowspec_vpp_agent.Translate.Unsupported.{Result, ok, unsupported, unsupported_expression}

-- `reduceExact`; `none` stands for an absent component.
unfoldable pub reduce_exact : List NumericOp → Result (Option ℕ)
reduce_exact [] = ok none
reduce_exact (op ∷ []) =
    if not op.eq || op.lt || op.gt
    then unsupported unsupported_expression
    else if ltb 255 op.value
    then unsupported unsupported_expression
    else ok (some (op.value % 256))
reduce_exact (op ∷ op' ∷ ops) = unsupported unsupported_expression

-- `reduceProto`, line for line the same function but for its messages.
unfoldable pub reduce_proto : List NumericOp → Result (Option ℕ)
unfolding reduce_exact
reduce_proto ops = reduce_exact ops

-- The value that a component is reduced to is a byte, and the list admits it and nothing else.
pub reduce_exact_lem :
    (ops : List NumericOp) (v : ℕ)
    → reduce_exact ops ≡ ok (some v)
    → (v ≤ 255) × ((x : ℕ) → ops_hold ops x ≡ (x == v))
unfolding reduce_exact ops_hold op_holds
reduce_exact_lem [] v e = cc
reduce_exact_lem (op ∷ []) v e = (ground arith, λ x. ground arith)
reduce_exact_lem (op ∷ op' ∷ ops) v e = cc

-- A component that is taken for absent has no operators, and so admits everything.
pub reduce_exact_absent :
    (ops : List NumericOp) → reduce_exact ops ≡ ok none → (x : ℕ) → ops_hold ops x ≡ true
unfolding reduce_exact ops_hold
reduce_exact_absent [] e x = ground arith
reduce_exact_absent (op ∷ []) e x = ground arith
reduce_exact_absent (op ∷ op' ∷ ops) e x = cc
