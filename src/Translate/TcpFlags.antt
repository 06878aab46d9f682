-- ===== src/Translate/TcpFlags.antt =====
-- internal/translate/tcpflags.go: an operator list on the TCP flags as a value and a mask.
pub mod Sound
use Prim.Native.Nat.{bit_and, bit_or}
use flowspec_vpp_agent.Prelude.{
  ℕ, ◌-◌, ◌%◌, Bool, true, false, not, ◌&&◌, List, [], ◌∷◌, Option, none, some, ltb, ◌==◌,
  if◌then◌else◌,
}
use flowspec_vpp_agent.Flowspec.{BitmaskOp}
use flowspec_vpp_agent.Translate.Unsupported.{
  Result, ok, unsupported, unsupported_expression, ◌>>=◌,
}

-- `setBits` and `clearBits`.
pub record Bits : Type 0 where
  pub set : ℕ  -- uint8
  pub clear : ℕ  -- uint8

abbrev pub no_bits : Bits
no_bits = record { set = 0; clear = 0 }

-- `bits & (bits - 1) == 0`; the operand is not 0 where this is asked.
abbrev pub one_bit : ℕ → Bool
one_bit bits = bit_and bits (bits - 1) == 0

abbrev pub refuse {ℓ} : {A : Type ℓ} → Result A
refuse = unsupported unsupported_expression

-- The `switch` on the match and not bits.
unfoldable pub take_bits : Bool → Bool → ℕ → Bits → Result Bits
take_bits true false bits b = ok (record b { set = bit_or b.set bits })
take_bits true true bits b =
    if not (one_bit bits) then refuse else ok (record b { clear = bit_or b.clear bits })
take_bits false false bits b =
    if not (one_bit bits) then refuse else ok (record b { set = bit_or b.set bits })
take_bits false true bits b = ok (record b { clear = bit_or b.clear bits })

-- The test that closes the loop body.
unfoldable pub check_disjoint : Bits → Result Bits
check_disjoint b = if not (bit_and b.set b.clear == 0) then refuse else ok b

-- The tests on the operand, and its `uint8`.
unfoldable pub operand : BitmaskOp → Result ℕ
operand op =
    if ltb 0xff op.value
    then refuse
    else if op.value % 256 == 0
    then refuse
    else ok (op.value % 256)

-- The loop body after the test on alternatives.
unfoldable pub take_op : BitmaskOp → Bits → Result Bits
take_op op b = do bits ← operand op; b' ← take_bits op.match op.not bits b; check_disjoint b'

-- The loop; `first` says that i == 0.
unfoldable pub loop : Bool → List BitmaskOp → Bits → Result Bits
loop first [] b = ok b
loop first (op ∷ ops) b =
    let rest = take_op op b >>= loop false ops in if not first && not op.and then refuse else rest

-- The value and the mask; `none` stands for an absent component.
unfoldable pub reduce_tcp_flags : List BitmaskOp → Result (Option (ℕ × ℕ))
unfolding loop take_op operand take_bits check_disjoint
reduce_tcp_flags [] = ok none
reduce_tcp_flags (op ∷ ops) = do
  b ← loop true (op ∷ ops) no_bits
  ok (some (b.set, bit_or b.set b.clear))
