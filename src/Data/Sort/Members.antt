-- ===== src/Data/Sort/Members.antt =====
-- Sorting keeps the members of a list.
use mathlib.Core.List.{Memᴰ}
use flowspec_vpp_agent.Prelude.{◌≡◌, Bool, List, [], ◌∷◌, ◌⊎◌, inl, inr, Bool-cases}
use flowspec_vpp_agent.Data.Sort.{insert, sort}
use Memᴰ.{head, tail}

pub Memᴰ-cons {ℓ} : {A : Type ℓ} (a x : A) (xs : List A) → Memᴰ a (x ∷ xs) → (a ≡ x) ⊎ Memᴰ a xs
Memᴰ-cons a x xs (head e) = inl e
Memᴰ-cons a x xs (tail t) = inr t

module _ {K : Type 0} (le : K → K → Bool) where
  insert-head : (k j : K) (ks : List K) → k ≡ j → Memᴰ k (insert le j ks)
  unfolding insert
  insert-head k j [] e = head e
  insert-head k j (i ∷ ks) e = elim (Bool-cases (le j i)) [
    | inl here ↦ rw here (head e)
    | inr later ↦ rw later (tail (insert-head k j ks e))
  ]

  insert-tail : (k j : K) (ks : List K) → Memᴰ k ks → Memᴰ k (insert le j ks)
  unfolding insert
  insert-tail k j [] h = elim h [ ]
  insert-tail k j (i ∷ ks) h = elim (Bool-cases (le j i)) [
    | inl here ↦ rw here (tail h)
    | inr later ↦ rw later (elim h [ head e ↦ head e | tail t ↦ tail (insert-tail k j ks t) ])
  ]

  insert-inv : (k j : K) (ks : List K) → Memᴰ k (insert le j ks) → (k ≡ j) ⊎ Memᴰ k ks
  unfolding insert
  insert-inv k j [] h = elim h [ head e ↦ inl e | tail t ↦ inr t ]
  insert-inv k j (i ∷ ks) h = elim (Bool-cases (le j i)) [
    | inl here ↦ Memᴰ-cons k j (i ∷ ks) (rw here at h)
    | inr later ↦ elim (Memᴰ-cons k i (insert le j ks) (rw later at h)) [
      | inl e ↦ inr (head e)
      | inr t ↦ elim (insert-inv k j ks t) [ inl e ↦ inl e | inr u ↦ inr (tail u) ]
    ]
  ]

  pub sort-Memᴰ : (k : K) (ks : List K) → Memᴰ k ks → Memᴰ k (sort le ks)
  unfolding sort
  sort-Memᴰ k [] h = elim h [ ]
  sort-Memᴰ k (j ∷ ks) h = elim h [
    | head e ↦ insert-head k j (sort le ks) e
    | tail t ↦ insert-tail k j (sort le ks) (sort-Memᴰ k ks t)
  ]

  pub Memᴰ-sort : (k : K) (ks : List K) → Memᴰ k (sort le ks) → Memᴰ k ks
  unfolding sort
  Memᴰ-sort k [] h = h
  Memᴰ-sort k (j ∷ ks) h = elim (insert-inv k j (sort le ks) h) [
    | inl e ↦ head e
    | inr t ↦ tail (Memᴰ-sort k ks t)
  ]
