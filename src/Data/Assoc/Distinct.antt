-- ===== src/Data/Assoc/Distinct.antt =====
-- Maps whose keys are distinct, and how often a value stands in one.
use flowspec_vpp_agent.Prelude.{
  ℕ, ◌+◌, ◌<◌, ◌≡◌, refl, ◌∙◌, ap, subst, List, [], ◌∷◌, none, some, if◌then◌else◌, Bool-cases, inl,
  inr, Eq, beq, beq_refl, arith,
}
use flowspec_vpp_agent.Data.Assoc.{lookup, insert, delete, lookup-insert, lookup-delete}

module _ {ℓ} {K : Type 0} ⦃e : Eq K⦄ {V : Type ℓ} where
  abbrev pub Distinct : List (K × V) → Type ℓ
  Distinct [] = Unit
  Distinct ((k, v) ∷ m) = (lookup k m ≡ none) × Distinct m

  pub delete_absent : (k : K) (m : List (K × V)) → lookup k m ≡ none → delete k m ≡ m
  unfolding lookup delete
  delete_absent k [] h = refl
  delete_absent k ((j, v) ∷ m) h = ground (arith, delete_absent k m)

  pub delete-Distinct : (k : K) (m : List (K × V)) → Distinct m → Distinct (delete k m)
  unfolding delete
  delete-Distinct k [] d = tt
  delete-Distinct k ((j, v) ∷ m) d = elim (Bool-cases (beq j k)) [
    | inl hit ↦ rw hit (delete-Distinct k m d.1)
    | inr miss ↦ rw miss (rw (lookup-delete k j m, d.0) (ground arith), delete-Distinct k m d.1)
  ]

  pub insert-Distinct : (k : K) (v : V) (m : List (K × V)) → Distinct m → Distinct (insert k v m)
  unfolding insert lookup
  insert-Distinct k v [] d = (refl, tt)
  insert-Distinct k v ((j, w) ∷ m) d = elim (Bool-cases (beq j k)) [
    | inl hit ↦ rw hit (subst (λ i. lookup i m ≡ none) ((e.beq_iff j k).0 hit) d.0, d.1)
    | inr miss ↦ rw miss (
      lookup-insert k j v m ∙ ground (arith, e.beq_iff k j, e.beq_iff j k, d.0),
      insert-Distinct k v m d.1,
    )
  ]

abbrev pub one : {K : Type 0} ⦃ek : Eq K⦄ → K → K → ℕ
one v k = if beq v k then 1 else 0

-- How often a value stands in a map.
module _ {R K : Type 0} ⦃er : Eq R⦄ ⦃ek : Eq K⦄ where
  unfoldable pub tally : K → List (R × K) → ℕ
  tally k [] = 0
  tally k ((r, v) ∷ m) = one v k + tally k m

  pub tally-insert :
      (r : R) (v k : K) (m : List (R × K))
      → lookup r m ≡ none
      → tally k (insert r v m) ≡ tally k m + one v k
  unfolding tally insert lookup
  tally-insert r v k [] h = ground arith
  tally-insert r v k ((q, w) ∷ m) h = ground (arith, tally-insert r v k m)

  pub tally-delete :
      (r : R) (v k : K) (m : List (R × K))
      → Distinct m
      → lookup r m ≡ some v
      → tally k (delete r m) + one v k ≡ tally k m
  unfolding tally delete lookup
  tally-delete r v k [] d h = cc
  tally-delete r v k ((q, w) ∷ m) d h = elim (Bool-cases (beq q r)) [
    | inl hit ↦
        let gone : delete r m ≡ m =
          delete_absent r m (subst (λ i. lookup i m ≡ none) ((er.beq_iff q r).0 hit) d.0) in
        let same : w ≡ v = ground arith in rw (hit, gone, same) (omega arith)
    | inr miss ↦ ground (arith, tally-delete r v k m d.1)
  ]

  pub tally_pos : (r : R) (v : K) (m : List (R × K)) → lookup r m ≡ some v → 0 < tally v m
  unfolding tally lookup
  tally_pos r v [] h = cc
  tally_pos r v ((q, w) ∷ m) h = ground (arith, ek.beq_iff w v, tally_pos r v m)

  pub tally-some :
      (k : K) (m : List (R × K)) → Distinct m → 0 < tally k m → (r : R) × (lookup r m ≡ some k)
  unfolding tally lookup
  tally-some k [] d h = absurd (omega arith)
  tally-some k ((q, w) ∷ m) d h = elim (Bool-cases (beq w k)) [
    | inl hit ↦ (q, rw (beq_refl q) (ap some ((ek.beq_iff w k).0 hit)))
    | inr miss ↦
        let (r, e) = tally-some k m d.1 (ground arith) in (r, ground (arith, er.beq_iff q r, d.0))
  ]
