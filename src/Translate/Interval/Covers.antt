-- ===== src/Translate/Interval/Covers.antt =====
-- The set of values that a list of intervals stands for, and what each operation does to it.
use flowspec_vpp_agent.Prelude.{
  ℕ, ◌≤◌, ◌<◌, ◌^◌, ◌≡◌, refl, ◌∙◌, Bool, true, false, ◌&&◌, ◌||◌, List, [], ◌∷◌, ◌++◌, leb, All,
  All-append, Bool-cases, inl, inr, arith,
}
use flowspec_vpp_agent.Translate.Interval.{
  Interval, before, insert, sort, touches, extend, merge_from, merge, normalize, meet,
  intersect_with, intersect_all, union_sets,
}

abbrev pub within : Interval → ℕ → Bool
within v x = leb v.lo x && leb x v.hi

unfoldable pub covers : List Interval → ℕ → Bool
covers [] x = false
covers (v ∷ s) x = within v x || covers s x

-- A non-empty interval below the limit.
pub record IsValid (limit : ℕ) (v : Interval) : Type 0 where
  pub ordered : v.lo ≤ v.hi
  pub bounded : v.hi ≤ limit

abbrev pub AllValid : ℕ → List Interval → Type 0
AllValid limit s = All (IsValid limit) s

pub covers-append : (s t : List Interval) (x : ℕ) → covers (s ++ t) x ≡ (covers s x || covers t x)
unfolding covers
covers-append [] t x = refl
covers-append (v ∷ s) t x = ground (arith, covers-append s t x)

covers-insert :
    (v : Interval) (s : List Interval) (x : ℕ) → covers (insert v s) x ≡ (within v x || covers s x)
unfolding covers insert
covers-insert v [] x = refl
covers-insert v (w ∷ s) x = ground (arith, covers-insert v s x)

covers-sort : (s : List Interval) (x : ℕ) → covers (sort s) x ≡ covers s x
unfolding covers sort
covers-sort [] x = refl
covers-sort (v ∷ s) x = ground (arith, covers-insert v (sort s) x, covers-sort s x)

insert-AllValid :
    (limit : ℕ) (v : Interval) (s : List Interval)
    → IsValid limit v
    → AllValid limit s
    → AllValid limit (insert v s)
unfolding insert
insert-AllValid limit v [] hv hs = (hv, tt)
insert-AllValid limit v (w ∷ s) hv hs = elim (Bool-cases (before w v)) [
  | inl e ↦ rw e (hs.0, insert-AllValid limit v s hv hs.1)
  | inr e ↦ rw e (hv, hs)
]

pub sort-AllValid : (limit : ℕ) (s : List Interval) → AllValid limit s → AllValid limit (sort s)
unfolding sort
sort-AllValid limit [] h = tt
sort-AllValid limit (v ∷ s) h = insert-AllValid limit v (sort s) h.0 (sort-AllValid limit s h.1)

-- The lower ends increase, from `a` on.
abbrev pub SortedFrom : ℕ → List Interval → Type 0
SortedFrom a [] = Unit
SortedFrom a (v ∷ s) = (a ≤ v.lo) × SortedFrom v.lo s

insert-SortedFrom :
    (a : ℕ) (v : Interval) (s : List Interval)
    → a ≤ v.lo
    → SortedFrom a s
    → SortedFrom a (insert v s)
unfolding insert
insert-SortedFrom a v [] h hs = (h, tt)
insert-SortedFrom a v (w ∷ s) h hs = elim (Bool-cases (before w v)) [
  | inl e ↦ rw e (hs.0, insert-SortedFrom w.lo v s (unfold before in ground arith) hs.1)
  | inr e ↦ rw e (h, (unfold before in ground arith, hs.1))
]

pub sort-SortedFrom : (s : List Interval) → SortedFrom 0 (sort s)
unfolding sort
sort-SortedFrom [] = tt
sort-SortedFrom (v ∷ s) = insert-SortedFrom 0 v (sort s) (omega arith) (sort-SortedFrom s)

-- Two touching intervals, the later one starting no earlier, are together one interval.
within-joined :
    (limit : ℕ) (a v : Interval) (x : ℕ)
    → limit < 2 ^ 64
    → IsValid limit a
    → a.lo ≤ v.lo
    → touches a v ≡ true
    → IsValid limit v
    → within (extend a v) x ≡ (within a x || within v x)
unfolding touches extend
within-joined limit a v x hl ha h ht hv = ground arith

pub extend-IsValid :
    (limit : ℕ) (a v : Interval) → IsValid limit a → IsValid limit v → IsValid limit (extend a v)
unfolding extend
extend-IsValid limit a v ha hv = ground arith

pub extend_lo : (a v : Interval) → (extend a v).lo ≡ a.lo
unfolding extend
extend_lo a v = ground arith

pub SortedFrom-le : (a b : ℕ) (s : List Interval) → a ≤ b → SortedFrom b s → SortedFrom a s
SortedFrom-le a b [] h hs = tt
SortedFrom-le a b (v ∷ s) h hs = (omega arith, hs.1)

pub SortedFrom-extend :
    (a v : Interval) (s : List Interval) → SortedFrom a.lo (v ∷ s) → SortedFrom (extend a v).lo s
SortedFrom-extend a v s h = rw (extend_lo a v) (SortedFrom-le a.lo v.lo s h.0 h.1)

pub covers-merge_from :
    (limit : ℕ) (a : Interval) (s : List Interval) (x : ℕ)
    → limit < 2 ^ 64
    → IsValid limit a
    → SortedFrom a.lo s
    → AllValid limit s
    → covers (merge_from a s) x ≡ (within a x || covers s x)
unfolding covers merge_from
covers-merge_from limit a [] x hl ha ho hs = refl
covers-merge_from limit a (v ∷ s) x hl ha ho hs = elim (Bool-cases (touches a v)) [
  | inl e ↦ rw e (
      covers-merge_from limit (extend a v) s x hl (extend-IsValid limit a v ha hs.0)
        (SortedFrom-extend a v s ho) hs.1
      ∙ ground (arith, within-joined limit a v x hl ha ho.0 e hs.0))
  | inr e ↦ rw e (ground (arith, covers-merge_from limit v s x hl hs.0 ho.1 hs.1))
]

covers-merge :
    (limit : ℕ) (s : List Interval) (x : ℕ)
    → limit < 2 ^ 64
    → SortedFrom 0 s
    → AllValid limit s
    → covers (merge s) x ≡ covers s x
unfolding merge covers
covers-merge limit [] x hl ho hs = refl
covers-merge limit (v ∷ s) x hl ho hs = covers-merge_from limit v s x hl hs.0 ho.1 hs.1

-- For a set of non-empty intervals below a limit that a uint64 holds, `normalize` covers the same
-- numbers.
pub covers-normalize :
    (limit : ℕ) (s : List Interval) (x : ℕ)
    → limit < 2 ^ 64
    → AllValid limit s
    → covers (normalize s) x ≡ covers s x
unfolding normalize
covers-normalize limit s x hl hs =
    covers-merge limit (sort s) x hl (sort-SortedFrom s) (sort-AllValid limit s hs)
    ∙ covers-sort s x

covers-intersect_with :
    (a : Interval) (s : List Interval) (x : ℕ)
    → covers (intersect_with a s) x ≡ (within a x && covers s x)
unfolding covers intersect_with meet
covers-intersect_with a [] x = ground arith
covers-intersect_with a (v ∷ s) x = ground (arith, covers-intersect_with a s x)

pub covers-intersect_all :
    (s t : List Interval) (x : ℕ) → covers (intersect_all s t) x ≡ (covers s x && covers t x)
unfolding covers intersect_all
covers-intersect_all [] t x = refl
covers-intersect_all (v ∷ s) t x = ground (
  arith,
  covers-append (intersect_with v t) (intersect_all s t) x,
  covers-intersect_with v t x,
  covers-intersect_all s t x,
)

-- For sets of non-empty intervals below a limit that a uint64 holds, `union_sets` covers a number
-- exactly when one of the two sets does.
pub covers-union_sets :
    (limit : ℕ) (s t : List Interval) (x : ℕ)
    → limit < 2 ^ 64
    → AllValid limit s
    → AllValid limit t
    → covers (union_sets s t) x ≡ (covers s x || covers t x)
unfolding union_sets
covers-union_sets limit s t x hl hs ht =
    covers-normalize limit (s ++ t) x hl (All-append (IsValid limit) s t hs ht)
    ∙ covers-append s t x
