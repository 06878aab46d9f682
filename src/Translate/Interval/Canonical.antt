-- ===== src/Translate/Interval/Canonical.antt =====
-- The canonical form that `normalize` brings a list of intervals to: ordered, non-empty and bounded
-- intervals with a gap of at least one value between any two. It survives every operation.
use flowspec_vpp_agent.Prelude.{
  ℕ, ◌+◌, ◌^◌, ◌≤◌, ◌<◌, ◌≡◌, ◌∙◌, true, false, ◌&&◌, List, [], ◌∷◌, ◌++◌, leb, All-append,
  Bool-cases, inl, inr, arith,
}
use flowspec_vpp_agent.Translate.Interval.{
  Interval, sort, touches, extend, merge_from, merge, normalize, meet, intersect_with,
  intersect_all, intersect_sets, union_sets,
}
use flowspec_vpp_agent.Translate.Interval.Covers.{
  covers, IsValid, AllValid, sort-AllValid, SortedFrom, sort-SortedFrom, extend-IsValid, extend_lo,
  SortedFrom-extend, covers-normalize, covers-intersect_all,
}

abbrev pub CanonicalFrom : ℕ → ℕ → List Interval → Type 0
CanonicalFrom limit a [] = Unit
CanonicalFrom limit a (v ∷ s) =
    (a ≤ v.lo) × (v.lo ≤ v.hi) × (v.hi ≤ limit) × CanonicalFrom limit (v.hi + 2) s

abbrev pub Canonical : ℕ → List Interval → Type 0
Canonical limit s = CanonicalFrom limit 0 s

CanonicalFrom-le :
    (limit a b : ℕ) (s : List Interval) → a ≤ b → CanonicalFrom limit b s → CanonicalFrom limit a s
CanonicalFrom-le limit a b [] h hs = tt
CanonicalFrom-le limit a b (v ∷ s) h hs = (omega arith, hs.1, hs.2, hs.3)

pub CanonicalFrom-AllValid :
    (limit a : ℕ) (s : List Interval) → CanonicalFrom limit a s → AllValid limit s
CanonicalFrom-AllValid limit a [] h = tt
CanonicalFrom-AllValid limit a (v ∷ s) h =
    (record { ordered = h.1; bounded = h.2 }, CanonicalFrom-AllValid limit (v.hi + 2) s h.3)

gap :
    (limit : ℕ) (a v : Interval)
    → limit < 2 ^ 64
    → IsValid limit a
    → IsValid limit v
    → touches a v ≡ false
    → a.hi + 2 ≤ v.lo
unfolding touches
gap limit a v hl ha hv e = ground arith

merge_from-CanonicalFrom :
    (limit : ℕ) (a : Interval) (s : List Interval)
    → limit < 2 ^ 64
    → IsValid limit a
    → SortedFrom a.lo s
    → AllValid limit s
    → CanonicalFrom limit a.lo (merge_from a s)
unfolding merge_from
merge_from-CanonicalFrom limit a [] hl ha ho hs = (omega arith, ha.ordered, ha.bounded, tt)
merge_from-CanonicalFrom limit a (v ∷ s) hl ha ho hs = elim (Bool-cases (touches a v)) [
  | inl e ↦ rw e (
      CanonicalFrom-le limit a.lo (extend a v).lo (merge_from (extend a v) s)
        (omega (arith, extend_lo a v))
        (merge_from-CanonicalFrom limit (extend a v) s hl (extend-IsValid limit a v ha hs.0)
          (SortedFrom-extend a v s ho) hs.1))
  | inr e ↦ rw e (
    omega arith,
    ha.ordered,
    ha.bounded,
    CanonicalFrom-le limit (a.hi + 2) v.lo (merge_from v s) (gap limit a v hl ha hs.0 e)
        (merge_from-CanonicalFrom limit v s hl hs.0 ho.1 hs.1),
  )
]

merge-Canonical :
    (limit : ℕ) (s : List Interval)
    → limit < 2 ^ 64
    → SortedFrom 0 s
    → AllValid limit s
    → Canonical limit (merge s)
unfolding merge
merge-Canonical limit [] hl ho hs = tt
merge-Canonical limit (v ∷ s) hl ho hs =
    CanonicalFrom-le limit 0 v.lo (merge_from v s) (omega arith)
      (merge_from-CanonicalFrom limit v s hl hs.0 ho.1 hs.1)

-- For a set of non-empty intervals below a limit that a uint64 holds, `normalize` gives non-empty
-- intervals below the limit in ascending order, at least one number between any two.
pub normalize-Canonical :
    (limit : ℕ) (s : List Interval)
    → limit < 2 ^ 64
    → AllValid limit s
    → Canonical limit (normalize s)
unfolding normalize
normalize-Canonical limit s hl hs =
    merge-Canonical limit (sort s) hl (sort-SortedFrom s) (sort-AllValid limit s hs)

pub normalize-AllValid :
    (limit : ℕ) (s : List Interval)
    → limit < 2 ^ 64
    → AllValid limit s
    → AllValid limit (normalize s)
normalize-AllValid limit s hl hs =
    CanonicalFrom-AllValid limit 0 (normalize s) (normalize-Canonical limit s hl hs)

meet-IsValid :
    (limit : ℕ) (a v : Interval)
    → IsValid limit a
    → IsValid limit v
    → leb (meet a v).lo (meet a v).hi ≡ true
    → IsValid limit (meet a v)
unfolding meet
meet-IsValid limit a v ha hv e = ground arith

intersect_with-AllValid :
    (limit : ℕ) (a : Interval) (s : List Interval)
    → IsValid limit a
    → AllValid limit s
    → AllValid limit (intersect_with a s)
unfolding intersect_with
intersect_with-AllValid limit a [] ha hs = tt
intersect_with-AllValid limit a (v ∷ s) ha hs =
    elim (Bool-cases (leb (meet a v).lo (meet a v).hi)) [
      | inl e ↦ rw e (meet-IsValid limit a v ha hs.0 e, intersect_with-AllValid limit a s ha hs.1)
      | inr e ↦ rw e (intersect_with-AllValid limit a s ha hs.1)
    ]

intersect_all-AllValid :
    (limit : ℕ) (s t : List Interval)
    → AllValid limit s
    → AllValid limit t
    → AllValid limit (intersect_all s t)
unfolding intersect_all
intersect_all-AllValid limit [] t hs ht = tt
intersect_all-AllValid limit (v ∷ s) t hs ht =
    All-append (IsValid limit) (intersect_with v t) (intersect_all s t)
      (intersect_with-AllValid limit v t hs.0 ht) (intersect_all-AllValid limit s t hs.1 ht)

pub intersect_sets-AllValid :
    (limit : ℕ) (s t : List Interval)
    → limit < 2 ^ 64
    → AllValid limit s
    → AllValid limit t
    → AllValid limit (intersect_sets s t)
unfolding intersect_sets
intersect_sets-AllValid limit s t hl hs ht =
    normalize-AllValid limit (intersect_all s t) hl (intersect_all-AllValid limit s t hs ht)

-- For sets of non-empty intervals below a limit that a uint64 holds, `intersect_sets` covers a
-- number exactly when both sets do.
pub covers-intersect_sets :
    (limit : ℕ) (s t : List Interval) (x : ℕ)
    → limit < 2 ^ 64
    → AllValid limit s
    → AllValid limit t
    → covers (intersect_sets s t) x ≡ (covers s x && covers t x)
unfolding intersect_sets
covers-intersect_sets limit s t x hl hs ht =
    covers-normalize limit (intersect_all s t) x hl (intersect_all-AllValid limit s t hs ht)
    ∙ covers-intersect_all s t x

pub union_sets-AllValid :
    (limit : ℕ) (s t : List Interval)
    → limit < 2 ^ 64
    → AllValid limit s
    → AllValid limit t
    → AllValid limit (union_sets s t)
unfolding union_sets
union_sets-AllValid limit s t hl hs ht =
    normalize-AllValid limit (s ++ t) hl (All-append (IsValid limit) s t hs ht)
