-- ===== src/Semantics/Operators.antt =====
-- RFC 8955, 4.2.1: when a value satisfies a list of numeric or of bitmask operators. An item with
-- `and` unset opens a new alternative; the items of one alternative hold together.
use Prim.Native.Nat.{bit_and}
use flowspec_vpp_agent.Prelude.{
  ℕ, Bool, true, false, not, ◌&&◌, ◌||◌, List, [], ◌∷◌, ltb, ◌==◌, if◌then◌else◌,
}
use flowspec_vpp_agent.Flowspec.{NumericOp, BitmaskOp}

-- Each of the three bits admits a comparison; none of them is "true", all of them "false".
abbrev pub comparison : Bool → Bool → Bool → ℕ → ℕ → Bool
comparison lt gt eq v x =
    if not (lt || gt || eq)
    then true
    else if lt && gt && eq
    then false
    else (lt && ltb x v) || (gt && ltb v x) || (eq && x == v)

unfoldable pub op_holds : NumericOp → ℕ → Bool
op_holds op x = comparison op.lt op.gt op.eq op.value x

-- `term` says whether the alternative under way holds so far.
unfoldable pub holds_from : Bool → List NumericOp → ℕ → Bool
holds_from term [] x = term
holds_from term (op ∷ ops) x =
    let joined = holds_from (term && op_holds op x) ops x in
    let opened = term || holds_from (op_holds op x) ops x in if op.and then joined else opened

-- An absent component admits everything.
unfoldable pub ops_hold : List NumericOp → ℕ → Bool
unfolding holds_from
ops_hold [] x = true
ops_hold (op ∷ ops) x = holds_from (op_holds op x) ops x

-- The match bit asks for all bits of the operand, and its absence for any; `not` negates.
unfoldable pub bits_hold : BitmaskOp → ℕ → Bool
bits_hold op x =
    let hit = if op.match then bit_and x op.value == op.value else not (bit_and x op.value == 0) in
    if op.not then not hit else hit

unfoldable pub bitmask_holds_from : Bool → List BitmaskOp → ℕ → Bool
bitmask_holds_from term [] x = term
bitmask_holds_from term (op ∷ ops) x =
    let joined = bitmask_holds_from (term && bits_hold op x) ops x in
    let opened = term || bitmask_holds_from (bits_hold op x) ops x in
    if op.and then joined else opened

unfoldable pub bitmask_ops_hold : List BitmaskOp → ℕ → Bool
unfolding bitmask_holds_from
bitmask_ops_hold [] x = true
bitmask_ops_hold (op ∷ ops) x = bitmask_holds_from (bits_hold op x) ops x
