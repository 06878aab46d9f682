-- ===== src/Translate/TcpFlags/Sound.antt =====
-- The value and the mask select exactly the flag bytes that the operator list admits.
use Prim.Native.Nat.{bit_and, bit_or}
use flowspec_vpp_agent.Prelude.{
  ℕ, ◌<◌, ◌^◌, ◌≡◌, refl, ◌∙◌, sym, ap, Bool, true, false, ◌&&◌, List, [], ◌∷◌, some, ◌==◌, arith,
}
use flowspec_vpp_agent.Data.Bits.{
  bit_or-set, bit_or-clear, bit_or-value, bit_or_bound, one_bit-set, bit_and-zero,
}
use flowspec_vpp_agent.Flowspec.{BitmaskOp}
use flowspec_vpp_agent.Semantics.Operators.{bits_hold, bitmask_holds_from, bitmask_ops_hold}
use flowspec_vpp_agent.Translate.Unsupported.{ok, >>=-eq-ok, ◌>>=◌}
use flowspec_vpp_agent.Translate.TcpFlags.{
  Bits, no_bits, take_bits, check_disjoint, operand, take_op, loop, reduce_tcp_flags,
}

-- Two bytes with no common bit.
pub record IsDisjoint (b : Bits) : Type 0 where
  pub set_byte : b.set < 2 ^ 8
  pub clear_byte : b.clear < 2 ^ 8
  pub disjoint : bit_and b.set b.clear ≡ 0

-- The flags have all bits of `set` and none of `clear`.
abbrev pub agrees : Bits → ℕ → Bool
agrees b f = bit_and f b.set == b.set && bit_and f b.clear == 0

take_bits_lem :
    (m n : Bool) (v : ℕ) (b b' : Bits) (f : ℕ)
    → f < 2 ^ 8
    → v < 2 ^ 8
    → (v == 0) ≡ false
    → b.set < 2 ^ 8
    → b.clear < 2 ^ 8
    → take_bits m n v b ≡ ok b'
    → (b'.set < 2 ^ 8)
      × (b'.clear < 2 ^ 8)
      × (agrees b' f
          ≡ (agrees b f && bits_hold (record { and = true; not = n; match = m; value = v }) f))
unfolding take_bits bits_hold
take_bits_lem true false v b b' f hf hv pos hs hc e =
    ground (arith, bit_or_bound 8 b.set v hs hv, bit_or-set 8 f b.set v hf hs hv)
take_bits_lem true true v b b' f hf hv pos hs hc e = ground (
  arith,
  bit_or_bound 8 b.clear v hc hv,
  bit_or-clear 8 f b.clear v hf hc hv,
  one_bit-set 8 f v hf hv (ground arith) (ground arith),
)
take_bits_lem false false v b b' f hf hv pos hs hc e = ground (
  arith,
  bit_or_bound 8 b.set v hs hv,
  bit_or-set 8 f b.set v hf hs hv,
  one_bit-set 8 f v hf hv (ground arith) (ground arith),
)
take_bits_lem false true v b b' f hf hv pos hs hc e =
    ground (arith, bit_or_bound 8 b.clear v hc hv, bit_or-clear 8 f b.clear v hf hc hv)

check_disjoint-eq-ok :
    (b b' : Bits) → check_disjoint b ≡ ok b' → (b ≡ b') × (bit_and b.set b.clear ≡ 0)
unfolding check_disjoint
check_disjoint-eq-ok b b' e = ground arith

operand-eq-ok :
    (op : BitmaskOp) (v : ℕ) → operand op ≡ ok v → (v ≡ op.value) × (v < 2 ^ 8) × ((v == 0) ≡ false)
unfolding operand
operand-eq-ok op v e = ground arith

take_op_lem :
    (op : BitmaskOp) (b b' : Bits) (f : ℕ)
    → f < 2 ^ 8
    → IsDisjoint b
    → take_op op b ≡ ok b'
    → IsDisjoint b' × (agrees b' f ≡ (agrees b f && bits_hold op f))
unfolding take_op bits_hold
take_op_lem op b b' f hf d e =
    let (v, ev, e₁) = >>=-eq-ok (operand op) _ e in
    let (same, small, pos) = operand-eq-ok op v ev in
    let (c, ec, e₂) = >>=-eq-ok (take_bits op.match op.not v b) _ e₁ in
    let (eq, disj) = check_disjoint-eq-ok c b' e₂ in
    let (hs, hc, a) =
      take_bits_lem op.match op.not v b c f hf small pos d.set_byte d.clear_byte ec in
    rw (← eq) (record { set_byte = hs; clear_byte = hc; disjoint = disj }, simp same at a)

holds-and :
    (term : Bool) (op : BitmaskOp) (ops : List BitmaskOp) (f : ℕ)
    → op.and ≡ true
    → bitmask_holds_from term (op ∷ ops) f ≡ bitmask_holds_from (term && bits_hold op f) ops f
unfolding bitmask_holds_from
holds-and term op ops f e = ground arith

loop-eq-ok :
    (op : BitmaskOp) (ops : List BitmaskOp) (b b' : Bits)
    → loop false (op ∷ ops) b ≡ ok b'
    → (op.and ≡ true) × ((take_op op b >>= loop false ops) ≡ ok b')
unfolding loop
loop-eq-ok op ops b b' e = (ground arith, ground arith)

loop-agrees :
    (ops : List BitmaskOp) (b b' : Bits) (f : ℕ)
    → f < 2 ^ 8
    → IsDisjoint b
    → loop false ops b ≡ ok b'
    → IsDisjoint b' × (agrees b' f ≡ bitmask_holds_from (agrees b f) ops f)
unfolding bitmask_holds_from
loop-agrees [] b b' f hf d e = unfold loop in let p : b ≡ b' = cc in rw (← p) (d, refl)
loop-agrees (op ∷ ops) b b' f hf d e =
    let (a, rest) = loop-eq-ok op ops b b' e in
    let (b₁, t, l) = >>=-eq-ok (take_op op b) (loop false ops) rest in
    let (d₁, a₁) = take_op_lem op b b₁ f hf d t in
    let (d', a') = loop-agrees ops b₁ b' f hf d₁ l in
    (d', a' ∙ rw a₁ (sym (holds-and (agrees b f) op ops f a)))

bytes_start : IsDisjoint no_bits
bytes_start = record { set_byte = omega arith; clear_byte = omega arith; disjoint = refl }

agrees-no_bits : (f : ℕ) → f < 2 ^ 8 → agrees no_bits f ≡ true
agrees-no_bits f hf = ground (arith, bit_and-zero 8 f hf)

-- When `reduce_tcp_flags` accepts a list of operators, a flag byte gives the value under the mask
-- exactly when the list admits it.
pub reduce_tcp_flags_exact :
    (ops : List BitmaskOp) (value mask f : ℕ)
    → f < 2 ^ 8
    → reduce_tcp_flags ops ≡ ok (some (value, mask))
    → (bit_and f mask == value) ≡ bitmask_ops_hold ops f
unfolding reduce_tcp_flags bitmask_ops_hold
reduce_tcp_flags_exact [] value mask f hf e = cc
reduce_tcp_flags_exact (op ∷ ops) value mask f hf e =
    let (b, el, r) = >>=-eq-ok (loop true (op ∷ ops) no_bits) _ e in
    let (c, et, el') = >>=-eq-ok (take_op op no_bits) (loop false ops) el in
    let (dc, ac) = take_op_lem op no_bits c f hf bytes_start et in
    let (d, a) = loop-agrees ops c b f hf dc el' in
    let ev : b.set ≡ value = cc in
    let em : bit_or b.set b.clear ≡ mask = cc in
    rw (← ev, ← em)
      (bit_or-value 8 f b.set b.clear hf d.set_byte d.clear_byte d.disjoint
        ∙ a
        ∙ ap (λ t. bitmask_holds_from t ops f)
            (ac ∙ ap (λ t. t && bits_hold op f) (agrees-no_bits f hf)))
