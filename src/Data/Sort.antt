-- ===== src/Data/Sort.antt =====
-- Go's `sort.Strings` on distinct keys: an insertion sort by the order of the keys.
pub mod Members
use flowspec_vpp_agent.Prelude.{Bool, List, [], ◌∷◌, if◌then◌else◌}

module _ {K : Type 0} (le : K → K → Bool) where
  unfoldable pub insert : K → List K → List K
  insert k [] = k ∷ []
  insert k (j ∷ ks) = if le k j then k ∷ j ∷ ks else j ∷ insert k ks

  unfoldable pub sort : List K → List K
  unfolding insert
  sort [] = []
  sort (k ∷ ks) = insert k (sort ks)
