-- ===== src/Manager/Backend.antt =====
-- internal/vpp/backend.go, the interface `Backend`: what the manager asks of VPP.
use flowspec_vpp_agent.Prelude.{◌≡◌, ◌≢◌, Bool, true, false, List}
use flowspec_vpp_agent.Vpp.Types.{AclFamily, AclRule}

-- `replace` is `ReplaceACL`, with whether it returned no error; `held` is the content of a Managed ACL.
pub record Backend : Type 1 where
  pub State : Type 0
  pub replace : State → AclFamily → List AclRule → State × Bool
  pub held : State → AclFamily → List AclRule
  pub held_replaced :
      (b : State) (f : AclFamily) (rules : List AclRule)
      → (replace b f rules).1 ≡ true
      → held (replace b f rules).0 f ≡ rules
  pub held_refused :
      (b : State) (f : AclFamily) (rules : List AclRule)
      → (replace b f rules).1 ≡ false
      → held (replace b f rules).0 f ≡ held b f
  pub held_other :
      (b : State) (f g : AclFamily) (rules : List AclRule)
      → f ≢ g
      → held (replace b f rules).0 g ≡ held b g
