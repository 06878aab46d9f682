-- ===== src/Sflow/Reader.antt =====
-- internal/sflow/decode.go, the type `reader`: its state is the bytes that are left, `r.b[r.n:]`. A
-- slice outside them, which panics in Go, gives the parameter `bad`.
use flowspec_vpp_agent.Prelude.{
  ℕ, ◌-◌, ◌%◌, Option, none, some, List, [], ltb, if◌then◌else◌, length,
}
use flowspec_vpp_agent.Data.Bytes.{drop, big_endian, slice_to}

-- `reader.left`
unfoldable pub left : List ℕ → ℕ
left r = length r

-- `reader.u32`
unfoldable pub u32 : ℕ → List ℕ → Option (ℕ × List ℕ)
unfolding left
u32 oob r = if ltb (left r) 4 then none else some (big_endian oob r 0 4, drop 4 r)

module _ (bad : List ℕ) where
  -- `reader.bytes`
  unfoldable pub bytes : ℕ → List ℕ → Option (List ℕ × List ℕ)
  unfolding left
  bytes n r = if ltb (left r) n then none else some (slice_to bad r n, drop n r)

  -- `reader.take`: nothing is read if too few bytes are left.
  unfoldable pub read_take : ℕ → List ℕ → List ℕ × List ℕ
  unfolding bytes
  read_take n r = elim (bytes n r) [ none ↦ ([], r) | some v ↦ v ]

  -- `reader.skip`
  unfoldable pub skip : ℕ → List ℕ → Option (List ℕ)
  unfolding bytes
  skip n r = elim (bytes n r) [ none ↦ none | some v ↦ some (v.1) ]

unfoldable pub pad4 : ℕ → ℕ
pad4 n = (4 - n % 4) % 4
