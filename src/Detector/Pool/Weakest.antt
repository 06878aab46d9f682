-- ===== src/Detector/Pool/Weakest.antt =====
-- internal/detector/store.go: the victim that `weakestOfSample` finds.
use flowspec_vpp_agent.Prelude.{
  ℕ, zero, suc, ◌≡◌, ◌⊎◌, inl, inr, refl, Bool, true, false, List, [], ◌∷◌, Option, none, some, Eq,
  Bool-cases, All,
}
use flowspec_vpp_agent.Data.Assoc.{lookup}
use flowspec_vpp_agent.Detector.Pool.{Instance, weaker, weakest_from}

-- An order on estimates in which any two can be compared.
pub record IsOrder {F : Type 0} (below : F → F → Bool) : Type 0 where
  pub not_below_trans : (x y z : F) → below x y ≡ false → below y z ≡ false → below x z ≡ false
  pub below_asymmetric : (x y : F) → below x y ≡ true → below y x ≡ false

irreflexive : {F : Type 0} {below : F → F → Bool} → IsOrder below → (x : F) → below x x ≡ false
irreflexive {below = below} o x = elim (Bool-cases (below x x)) [
  | inl t ↦ o.below_asymmetric x x t
  | inr t ↦ t
]

-- What is visited before the loop over the map ends.
unfoldable pub first : {A : Type 0} → ℕ → List A → List A
first zero l = []
first (suc n) [] = []
first (suc n) (x ∷ l) = x ∷ first n l

module _ {K : Type 0} ⦃e : Eq K⦄ where
  -- Every entry that is visited is in the map.
  abbrev pub Visits : (List (K × Instance K) → List (K × Instance K)) → Type 0
  Visits visit =
      (m : List (K × Instance K)) → All (λ x. (i : Instance K) × (lookup x.0 m ≡ some i)) (visit m)

module _ {K F : Type 0} ⦃e : Eq K⦄ (below : F → F → Bool) (estimate : K → F) where
  -- No entry has an estimate below this one.
  abbrev pub NoneBelow : F → List (K × Instance K) → Type 0
  NoneBelow bound items = All (λ x. below (estimate x.0) bound ≡ false) items

  -- The victim is an entry, with its own estimate.
  abbrev pub Resident : List (K × Instance K) → Option (K × F) → Type 0
  Resident m none = Unit
  Resident m (some (k, least)) = (least ≡ estimate k) × ((i : Instance K) × (lookup k m ≡ some i))

  pub weakest_from-Resident :
      (n : ℕ) (best : Option (K × F)) (m items : List (K × Instance K))
      → Resident m best
      → All (λ x. (i : Instance K) × (lookup x.0 m ≡ some i)) items
      → Resident m (weakest_from below estimate n best items)
  unfolding weakest_from weaker
  weakest_from-Resident zero best m items h v = h
  weakest_from-Resident (suc n) best m [] h v = h
  weakest_from-Resident (suc n) none m ((k, x) ∷ items) h v =
      weakest_from-Resident n (some (k, estimate k)) m items (refl, v.0) v.1
  weakest_from-Resident (suc n) (some (j, least)) m ((k, x) ∷ items) h v =
      weakest_from-Resident n _ m items
        (elim (Bool-cases (below (estimate k) least)) [ inl t ↦ rw t (refl, v.0) | inr t ↦ rw t h ])
        v.1

  -- Nothing that was visited is weaker than the victim, nor was what stood before.
  record Least (n : ℕ) (least : F) (items : List (K × Instance K)) (r : Option (K × F))
      : Type 0 where
    victim : K
    bound : F
    chosen : r ≡ some (victim, bound)
    not_above : below least bound ≡ false
    weakest : NoneBelow bound (first n items)

  weakest_from-Least :
      IsOrder below
      → (n : ℕ) (k : K) (least : F) (items : List (K × Instance K))
      → Least n least items (weakest_from below estimate n (some (k, least)) items)
  unfolding weakest_from weaker first
  weakest_from-Least o zero k least items = record {
    victim = k;
    bound = least;
    chosen = refl;
    not_above = irreflexive o least;
    weakest = tt;
  }
  weakest_from-Least o (suc n) k least [] = record {
    victim = k;
    bound = least;
    chosen = refl;
    not_above = irreflexive o least;
    weakest = tt;
  }
  weakest_from-Least o (suc n) k least ((j, x) ∷ items) =
      elim (Bool-cases (below (estimate j) least)) [
        | inl t ↦
            let r = weakest_from-Least o n j (estimate j) items in
            rw t (record {
              victim = r.victim;
              bound = r.bound;
              chosen = r.chosen;
              not_above =
                  o.not_below_trans least (estimate j) r.bound
                    (o.below_asymmetric (estimate j) least t) r.not_above;
              weakest = (r.not_above, r.weakest);
            })
        | inr t ↦
            let r = weakest_from-Least o n k least items in
            rw t (record {
              victim = r.victim;
              bound = r.bound;
              chosen = r.chosen;
              not_above = r.not_above;
              weakest = (o.not_below_trans (estimate j) least r.bound t r.not_above, r.weakest);
            })
      ]

  -- The victim that is found among the first of the entries, if there are any.
  pub record Chosen (n : ℕ) (items : List (K × Instance K)) (r : Option (K × F)) : Type 0 where
    pub victim : K
    pub bound : F
    pub chosen : r ≡ some (victim, bound)
    pub weakest : NoneBelow bound (first n items)

  pub weakest_from-Chosen :
      IsOrder below
      → (n : ℕ) (items : List (K × Instance K))
      → ((items ≡ []) × (weakest_from below estimate (suc n) none items ≡ none))
        ⊎ Chosen (suc n) items (weakest_from below estimate (suc n) none items)
  unfolding weakest_from weaker first
  weakest_from-Chosen o n [] = inl (refl, refl)
  weakest_from-Chosen o n ((k, x) ∷ items) =
      let r = weakest_from-Least o n k (estimate k) items in
      inr (record {
        victim = r.victim;
        bound = r.bound;
        chosen = r.chosen;
        weakest = (r.not_above, r.weakest);
      })

  pub NoneBelow-trans :
      IsOrder below
      → (x y : F) (items : List (K × Instance K)) → below x y ≡ false
      → NoneBelow x items
      → NoneBelow y items
  NoneBelow-trans o x y [] h a = tt
  NoneBelow-trans o x y ((k, i) ∷ items) h a =
      (o.not_below_trans (estimate k) x y a.0 h, NoneBelow-trans o x y items h a.1)
