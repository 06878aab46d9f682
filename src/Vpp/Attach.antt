-- ===== src/Vpp/Attach.antt =====
-- internal/vpp/attach.go: the list of ACLs of an interface, and how the Managed ACLs are put into it.
pub mod Merging
use flowspec_vpp_agent.Prelude.{
  ℕ, ◌+◌, ◌%◌, ◌^◌, Bool, true, false, not, List, [], ◌∷◌, ◌++◌, length, ltb, if◌then◌else◌,
}
use flowspec_vpp_agent.Vpp.Types.{Direction, ingress, egress}

-- `splitNonManaged`; `i` is the index of the next ACL, and `managed` is the map read as a function.
split_from : (ℕ → Bool) → ℕ → ℕ → List ℕ → List ℕ → List ℕ → List ℕ × List ℕ
split_from managed n_input i into out [] = (into, out)
split_from managed n_input i into out (a ∷ cur) =
    let kept = split_from managed n_input (i + 1) into out cur in
    let as_input = split_from managed n_input (i + 1) (into ++ a ∷ []) out cur in
    let as_output = split_from managed n_input (i + 1) into (out ++ a ∷ []) cur in
    if managed a then kept else if ltb (i % 2 ^ 8) n_input then as_input else as_output

unfoldable pub split_non_managed : List ℕ → ℕ → (ℕ → Bool) → List ℕ × List ℕ
unfolding split_from
split_non_managed cur n_input managed = split_from managed n_input 0 [] [] cur

-- `mergeManagedLast`
abbrev merge_parts : Direction → List ℕ → List ℕ → List ℕ → List ℕ × ℕ
merge_parts ingress into out ours = ((into ++ ours) ++ out, length (into ++ ours) % 2 ^ 8)
merge_parts egress into out ours = (into ++ (out ++ ours), length into % 2 ^ 8)

unfoldable pub merge_managed_last : List ℕ → ℕ → (ℕ → Bool) → List ℕ → Direction → List ℕ × ℕ
merge_managed_last cur n_input managed ours dir =
    let (into, out) = split_non_managed cur n_input managed in merge_parts dir into out ours
