-- ===== src/Detector/Pool/Admission.antt =====
-- Admission to a full pool of instances.
use flowspec_vpp_agent.Prelude.{
  ℕ, ◌≤◌, ◌<◌, ◌≡◌, ◌≢◌, Bool, true, List, Option, none, some, length, Eq,
}
use flowspec_vpp_agent.Data.Assoc.{lookup}
use flowspec_vpp_agent.Detector.Pool.{Instance, InstanceStore, new_instance, admit_sample_size}
use flowspec_vpp_agent.Detector.Pool.Weakest.{first, NoneBelow}

-- The settings stay, and so do the entries of all keys apart from some.
pub record Kept {K : Type 0} ⦃e : Eq K⦄ (Apart : K → Type 0) (s s' : InstanceStore K) : Type 0 where
  pub max_kept : s'.max ≡ s.max
  pub history_kept : s'.history ≡ s.history
  pub others_kept : (j : K) → Apart j → lookup j s'.items ≡ lookup j s.items

module _ {K F : Type 0} ⦃e : Eq K⦄ (below : F → F → Bool) (estimate : K → F)
    (visit : List (K × Instance K) → List (K × Instance K)) where
  -- The four outcomes for a key, with the conditions on which each happens.
  pub data Outcome (s : InstanceStore K) (key : K) (now : ℕ)
      : InstanceStore K × Option (Instance K) → Type 0 where
    known : (i : Instance K) → lookup key s.items ≡ some i → Outcome s key now (s, some i)
    added :
        (s' : InstanceStore K)
        → lookup key s.items ≡ none
        → length s.items < s.max
        → Kept (λ j. j ≢ key) s s'
        → Outcome s key now (s', some (new_instance key s.history now))
    refused :
        lookup key s.items ≡ none
        → s.max ≤ length s.items
        → NoneBelow below estimate (estimate key) (first admit_sample_size (visit s.items))
        → Outcome s key now (s, none)
    replaced :
        (s' : InstanceStore K) (victim : K)
        → lookup key s.items ≡ none
        → s.max ≤ length s.items
        → (lookup victim s.items ≢ none) × (lookup victim s'.items ≡ none)
        → below (estimate victim) (estimate key) ≡ true
        → NoneBelow below estimate (estimate victim) (first admit_sample_size (visit s.items))
        → Kept (λ j. (j ≢ key) × (j ≢ victim)) s s'
        → Outcome s key now (s', some (new_instance key s.history now))

  -- The pool never exceeds its size, and what is returned is what the pool has for the key.
  pub record IsAdmission (s : InstanceStore K) (key : K) (now : ℕ)
      (r : InstanceStore K × Option (Instance K)) : Type 0 where
    pub within : length r.0.items ≤ s.max
    pub found : lookup key r.0.items ≡ r.1
    pub outcome : Outcome s key now r
