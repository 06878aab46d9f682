-- ===== src/Data/Bits.antt =====
-- `&` and `|` on unsigned integers: the laws that flag masks rest on, for every width.
use Prim.Native.Nat.{bit_and, bit_or, digits, bit_and-bitwise, bit_or-bitwise}
use native.Mathlib.Nat.{pow-suc}
use flowspec_vpp_agent.Prelude.{
  ℕ, zero, suc, ◌+◌, ◌-◌, ◌*◌, ◌/◌, ◌%◌, ◌^◌, ◌≤◌, ◌<◌, min, max, ◌≡◌, refl, ◌∙◌, ap, ap₂, not,
  ◌&&◌, ◌==◌, ◌≢◌, ==_iff, Bool-cases, inl, inr, arith,
}

-- The recursion behind both operations, from the lowest digit; `rest` is the value once the first
-- number has run out.
module _ (rest : ℕ → ℕ) (digit : ℕ → ℕ → ℕ) where
  abbrev with_low : ℕ → ℕ → ℕ → ℕ
  with_low x y high = high * 2 + digit (x % 2) (y % 2)

  -- The recursion is bounded by a count, and every count that is large enough gives the same number.
  any_count : (x y i j : ℕ) → x ≤ i → x ≤ j → digits rest digit i x y ≡ digits rest digit j x y
  any_count zero y zero zero hi hj = refl
  any_count zero y zero (suc j) hi hj = refl
  any_count zero y (suc i) zero hi hj = refl
  any_count zero y (suc i) (suc j) hi hj = refl
  any_count (suc x) y zero j hi hj = absurd (omega arith)
  any_count (suc x) y (suc i) zero hi hj = absurd (omega arith)
  any_count (suc x) y (suc i) (suc j) hi hj =
      ap (with_low (suc x) y) (any_count (suc x / 2) (y / 2) i j (omega arith) (omega arith))

  digits_step :
      ((y : ℕ) → rest y ≡ with_low 0 y (rest (y / 2)))
      → (x y : ℕ)
      → digits rest digit x x y ≡ with_low x y (digits rest digit (x / 2) (x / 2) (y / 2))
  digits_step h zero y = h y
  digits_step h (suc x) y =
      ap (with_low (suc x) y)
        (any_count (suc x / 2) (y / 2) x (suc x / 2) (omega arith) (omega arith))

-- Both operations go digit by digit.
pub bit_and_step : (a b : ℕ) → bit_and a b ≡ bit_and (a / 2) (b / 2) * 2 + min (a % 2) (b % 2)
bit_and_step a b = omega (
  arith,
  bit_and-bitwise a b,
  bit_and-bitwise (a / 2) (b / 2),
  digits_step (λ b. zero) min (λ b. omega arith) a b,
)

pub bit_or_step : (a b : ℕ) → bit_or a b ≡ bit_or (a / 2) (b / 2) * 2 + max (a % 2) (b % 2)
bit_or_step a b = omega (
  arith,
  bit_or-bitwise a b,
  bit_or-bitwise (a / 2) (b / 2),
  digits_step (λ b. b) max (λ b. omega arith) a b,
)

bit_or_half : (a b : ℕ) → bit_or a b / 2 ≡ bit_or (a / 2) (b / 2)
bit_or_half a b = omega (arith, bit_or_step a b)

bit_or_low : (a b : ℕ) → bit_or a b % 2 ≡ max (a % 2) (b % 2)
bit_or_low a b = omega (arith, bit_or_step a b)

bit_and-bit_or_step :
    (f s b : ℕ)
    → bit_and f (bit_or s b)
      ≡ bit_and (f / 2) (bit_or (s / 2) (b / 2)) * 2 + min (f % 2) (max (s % 2) (b % 2))
bit_and-bit_or_step f s b =
    bit_and_step f (bit_or s b)
    ∙ ap₂ (λ (q r : ℕ). bit_and (f / 2) q * 2 + min (f % 2) r) (bit_or_half s b) (bit_or_low s b)

half_lt : (w a : ℕ) → a < 2 ^ suc w → a / 2 < 2 ^ w
half_lt w a h = omega (arith, pow-suc 2 w)

-- All bits of a union are set iff all bits of both parts are.
pub bit_or-set :
    (w f s b : ℕ)
    → f < 2 ^ w
    → s < 2 ^ w
    → b < 2 ^ w
    → (bit_and f (bit_or s b) == bit_or s b) ≡ (bit_and f s == s && bit_and f b == b)
bit_or-set zero f s b hf hs hb =
    let ef : f ≡ 0 = omega arith in
    let es : s ≡ 0 = omega arith in let eb : b ≡ 0 = omega arith in rw (ef, es, eb)
bit_or-set (suc w) f s b hf hs hb = ground (
  arith,
  bit_and-bit_or_step f s b,
  bit_or_step s b,
  bit_and_step f s,
  bit_and_step f b,
  bit_or-set w (f / 2) (s / 2) (b / 2) (half_lt w f hf) (half_lt w s hs) (half_lt w b hb),
)

-- All bits of a union are clear iff all bits of both parts are.
pub bit_or-clear :
    (w f s b : ℕ)
    → f < 2 ^ w
    → s < 2 ^ w
    → b < 2 ^ w
    → (bit_and f (bit_or s b) == 0) ≡ (bit_and f s == 0 && bit_and f b == 0)
bit_or-clear zero f s b hf hs hb =
    let ef : f ≡ 0 = omega arith in
    let es : s ≡ 0 = omega arith in let eb : b ≡ 0 = omega arith in rw (ef, es, eb)
bit_or-clear (suc w) f s b hf hs hb = ground (
  arith,
  bit_and-bit_or_step f s b,
  bit_and_step f s,
  bit_and_step f b,
  bit_or-clear w (f / 2) (s / 2) (b / 2) (half_lt w f hf) (half_lt w s hs) (half_lt w b hb),
)

-- Under a mask of two disjoint parts exactly the first is left iff it is set and the other clear.
pub bit_or-value :
    (w f s b : ℕ)
    → f < 2 ^ w
    → s < 2 ^ w
    → b < 2 ^ w
    → bit_and s b ≡ 0
    → (bit_and f (bit_or s b) == s) ≡ (bit_and f s == s && bit_and f b == 0)
bit_or-value zero f s b hf hs hb d =
    let ef : f ≡ 0 = omega arith in
    let es : s ≡ 0 = omega arith in let eb : b ≡ 0 = omega arith in rw (ef, es, eb)
bit_or-value (suc w) f s b hf hs hb d = ground (
  arith,
  bit_and-bit_or_step f s b,
  bit_and_step f s,
  bit_and_step f b,
  bit_and_step s b,
  bit_or-value w (f / 2) (s / 2) (b / 2) (half_lt w f hf) (half_lt w s hs) (half_lt w b hb)
      (omega (arith, bit_and_step s b)),
)

pub bit_or_bound : (w s b : ℕ) → s < 2 ^ w → b < 2 ^ w → bit_or s b < 2 ^ w
bit_or_bound zero s b hs hb =
    let es : s ≡ 0 = omega arith in let eb : b ≡ 0 = omega arith in rw (es, eb) (omega arith)
bit_or_bound (suc w) s b hs hb = omega (
  arith,
  pow-suc 2 w,
  bit_or_step s b,
  bit_or_bound w (s / 2) (b / 2) (half_lt w s hs) (half_lt w b hb),
)

bit_and_idem : (w a : ℕ) → a < 2 ^ w → bit_and a a ≡ a
bit_and_idem zero a h = let e : a ≡ 0 = omega arith in rw e
bit_and_idem (suc w) a h = omega (arith, bit_and_step a a, bit_and_idem w (a / 2) (half_lt w a h))

pub bit_and-zero : (w f : ℕ) → f < 2 ^ w → bit_and f 0 ≡ 0
bit_and-zero zero f h = let e : f ≡ 0 = omega arith in rw e
bit_and-zero (suc w) f h = omega (arith, bit_and_step f 0, bit_and-zero w (f / 2) (half_lt w f h))

-- The lowest digit of a number that has one bit: either it is that bit, or the bit is further up.
one_bit_odd :
    (w f b : ℕ)
    → f < 2 ^ suc w
    → b < 2 ^ suc w
    → b % 2 ≡ 1
    → bit_and b (b - 1) ≡ 0
    → (bit_and f b == 0) ≡ not (bit_and f b == b)
one_bit_odd w f b hf hb odd one =
    let half : (b - 1) / 2 ≡ b / 2 = omega arith in
    let top : bit_and (b / 2) (b / 2) ≡ 0 =
      omega (arith, bit_and_step b (b - 1), ap (bit_and (b / 2)) half) in
    let e : b ≡ 1 = omega (arith, bit_and_idem w (b / 2) (half_lt w b hb)) in
    rw e (ground (arith, bit_and_step f 1, bit_and-zero w (f / 2) (half_lt w f hf)))

-- Of a number that has one bit, any bit is set iff all are.
pub one_bit-set :
    (w f b : ℕ)
    → f < 2 ^ w
    → b < 2 ^ w
    → b ≢ 0
    → bit_and b (b - 1) ≡ 0
    → (bit_and f b == 0) ≡ not (bit_and f b == b)
one_bit-set zero f b hf hb pos one = absurd (omega arith)
one_bit-set (suc w) f b hf hb pos one = elim (Bool-cases (b % 2 == 1)) [
  | inl odd ↦ one_bit_odd w f b hf hb ((==_iff (b % 2) 1).0 odd) one
  | inr even ↦
      let low : b % 2 ≡ 0 = ground arith in
      let half : (b - 1) / 2 ≡ b / 2 - 1 = omega arith in
      let below : bit_and (b / 2) (b / 2 - 1) ≡ 0 =
        omega (arith, bit_and_step b (b - 1), ap (bit_and (b / 2)) half) in
      ground (
        arith,
        bit_and_step f b,
        one_bit-set w (f / 2) (b / 2) (half_lt w f hf) (half_lt w b hb) (omega arith) below,
      )
]
