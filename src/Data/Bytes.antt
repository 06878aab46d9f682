-- ===== src/Data/Bytes.antt =====
-- Reads of a byte slice as Go's `b[i]`, `b[i:]` and `binary.BigEndian`. Out of range Go panics; here
-- such a read gives a value that is a parameter, so a decoder that never reads out of range is one
-- whose result does not depend on it.
use flowspec_vpp_agent.Prelude.{
  ℕ, zero, suc, ◌+◌, ◌-◌, ◌*◌, ◌^◌, ◌≤◌, ◌<◌, ◌≡◌, refl, ap, List, [], ◌∷◌, ◌++◌, length,
  length-append, leb, le→leb, All, if◌then◌else◌, arith,
}
use native.Mathlib.Nat.{pow-suc}

unfoldable pub drop : ℕ → List ℕ → List ℕ
drop zero b = b
drop (suc n) [] = []
drop (suc n) (x ∷ b) = drop n b

unfoldable pub take : ℕ → List ℕ → List ℕ
take zero b = []
take (suc n) [] = []
take (suc n) (x ∷ b) = x ∷ take n b

pub length-drop : (n : ℕ) (b : List ℕ) → length (drop n b) ≡ length b - n
unfolding drop
length-drop zero b = omega arith
length-drop (suc n) [] = omega arith
length-drop (suc n) (x ∷ b) = omega (arith, length-drop n b)

pub drop-append : (a b : List ℕ) (n : ℕ) → length a ≡ n → drop n (a ++ b) ≡ b
unfolding drop
drop-append [] b zero h = refl
drop-append [] b (suc n) h = absurd (omega arith)
drop-append (x ∷ a) b zero h = absurd (omega arith)
drop-append (x ∷ a) b (suc n) h = drop-append a b n (omega arith)

pub take-append : (a b : List ℕ) (n : ℕ) → length a ≡ n → take n (a ++ b) ≡ a
unfolding take
take-append [] b zero h = refl
take-append [] b (suc n) h = absurd (omega arith)
take-append (x ∷ a) b zero h = absurd (omega arith)
take-append (x ∷ a) b (suc n) h = ap (x ∷◌) (take-append a b n (omega arith))

pub length-take : (n : ℕ) (b : List ℕ) → n ≤ length b → length (take n b) ≡ n
unfolding take
length-take zero b h = omega arith
length-take (suc n) [] h = absurd (omega arith)
length-take (suc n) (x ∷ b) h = omega (arith, length-take n b (omega arith))

-- Every element is a byte.
abbrev pub Bytes : List ℕ → Type 0
Bytes b = All (λ x. x < 256) b

pub drop-Bytes : (n : ℕ) (b : List ℕ) → Bytes b → Bytes (drop n b)
unfolding drop
drop-Bytes zero b h = h
drop-Bytes (suc n) [] h = tt
drop-Bytes (suc n) (x ∷ b) h = drop-Bytes n b h.1

pub take-Bytes : (n : ℕ) (b : List ℕ) → Bytes b → Bytes (take n b)
unfolding take
take-Bytes zero b h = tt
take-Bytes (suc n) [] h = tt
take-Bytes (suc n) (x ∷ b) h = (h.0, take-Bytes n b h.1)

module _ (oob : ℕ) where
  unfoldable pub at : List ℕ → ℕ → ℕ
  at [] i = oob
  at (x ∷ b) zero = x
  at (x ∷ b) (suc i) = at b i

  -- `count` bytes from an index on, most significant first.
  unfoldable pub big_endian : List ℕ → ℕ → ℕ → ℕ
  unfolding at
  big_endian b i zero = 0
  big_endian b i (suc count) = big_endian b i count * 256 + at b (i + count)

  abbrev pub u16 : List ℕ → ℕ → ℕ
  u16 b i = big_endian b i 2

  pub at-Bytes : (b : List ℕ) (i : ℕ) → Bytes b → i < length b → at b i < 256
  unfolding at
  at-Bytes [] i h r = absurd (omega arith)
  at-Bytes (x ∷ b) zero h r = h.0
  at-Bytes (x ∷ b) (suc i) h r = at-Bytes b i h.1 (omega arith)

  pub big_endian-Bytes :
      (b : List ℕ) (i count : ℕ)
      → Bytes b
      → i + count ≤ length b
      → big_endian b i count < 256 ^ count
  unfolding big_endian
  big_endian-Bytes b i zero h r = omega arith
  big_endian-Bytes b i (suc count) h r = grind (
    arith,
    big_endian-Bytes b i count h (omega arith),
    at-Bytes b (i + count) h (omega arith),
    pow-suc,
  )

  -- Reading behind a part that is skipped.
  pub at-append : (a b : List ℕ) (i : ℕ) → at (a ++ b) (length a + i) ≡ at b i
  unfolding at
  at-append [] b i = let e : length {A = ℕ} [] + i ≡ i = omega arith in ap (at b) e
  at-append (x ∷ a) b i =
      let e : length (x ∷ a) + i ≡ suc (length a + i) = omega arith in rw e (at-append a b i)

  pub big_endian-append :
      (a b : List ℕ) (k i count : ℕ)
      → k ≡ length a + i
      → big_endian (a ++ b) k count ≡ big_endian b i count
  unfolding big_endian
  big_endian-append a b k i zero h = refl
  big_endian-append a b k i (suc count) h =
      let e : k + count ≡ length a + (i + count) = omega arith in
      rw (big_endian-append a b k i count h, e, at-append a b (i + count)) refl

unfoldable pub slice_from : List ℕ → List ℕ → ℕ → List ℕ
slice_from bad b n = if leb n (length b) then drop n b else bad

-- `b[:n]`
unfoldable pub slice_to : List ℕ → List ℕ → ℕ → List ℕ
slice_to bad b n = if leb n (length b) then take n b else bad

pub slice_to-take : (bad b : List ℕ) (n : ℕ) → n ≤ length b → slice_to bad b n ≡ take n b
unfolding slice_to
slice_to-take bad b n r = rw (le→leb n (length b) r) refl

pub drop-append_behind : (a b : List ℕ) (k n : ℕ) → k ≡ length a + n → drop k (a ++ b) ≡ drop n b
unfolding drop
drop-append_behind [] b k n h = let e : k ≡ n = omega arith in rw e refl
drop-append_behind (x ∷ a) b zero n h = absurd (omega arith)
drop-append_behind (x ∷ a) b (suc k) n h = drop-append_behind a b k n (omega arith)

pub slice_from-append :
    (bad a b : List ℕ) (k n : ℕ) → k ≡ length a + n → slice_from bad (a ++ b) k ≡ slice_from bad b n
unfolding slice_from
slice_from-append bad a b k n h = ground (arith, length-append a b, drop-append_behind a b k n)

pub slice_from-length :
    (bad b : List ℕ) (n : ℕ) → n ≤ length b → length (slice_from bad b n) ≡ length b - n
unfolding slice_from
slice_from-length bad b n r = rw (le→leb n (length b) r) (length-drop n b)

pub slice_from-Bytes :
    (bad b : List ℕ) (n : ℕ) → Bytes b → n ≤ length b → Bytes (slice_from bad b n)
unfolding slice_from
slice_from-Bytes bad b n h r = rw (le→leb n (length b) r) (drop-Bytes n b h)

pub at-oob : (o o' : ℕ) (b : List ℕ) (i : ℕ) → i < length b → at o b i ≡ at o' b i
unfolding at
at-oob o o' [] i r = absurd (omega arith)
at-oob o o' (x ∷ b) zero r = refl
at-oob o o' (x ∷ b) (suc i) r = at-oob o o' b i (omega arith)

pub big_endian-oob :
    (o o' : ℕ) (b : List ℕ) (i count : ℕ)
    → i + count ≤ length b
    → big_endian o b i count ≡ big_endian o' b i count
unfolding big_endian
big_endian-oob o o' b i zero r = refl
big_endian-oob o o' b i (suc count) r =
    rw (big_endian-oob o o' b i count (omega arith), at-oob o o' b (i + count) (omega arith))

pub slice_from-bad :
    (bad bad' : List ℕ) (b : List ℕ) (n : ℕ)
    → n ≤ length b
    → slice_from bad b n ≡ slice_from bad' b n
unfolding slice_from
slice_from-bad bad bad' b n r = ground arith
