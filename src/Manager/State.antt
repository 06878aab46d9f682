-- ===== src/Manager/State.antt =====
-- internal/manager/manager.go: the state. Sessions, ACL keys and NLRI identities are strings that the
-- code only compares; here they are any three types with a test for equality.
use flowspec_vpp_agent.Prelude.{ℕ, Bool, true, false, List, [], ◌∷◌, Option, none, some, Eq}
use flowspec_vpp_agent.Data.Assoc.{lookup}
use flowspec_vpp_agent.Vpp.Types.{AclFamily, acl_ipv4, acl_ipv6, AclRule}

-- `entry`
pub record Entry (S : Type 0) : Type 0 where
  pub acl : AclRule
  pub family : AclFamily
  pub owners : List (S × ℕ)

-- `Manager`; a set of keys is a map to the unit type.
pub record Manager (S K R : Type 0) : Type 0 where
  pub entries : List (K × Entry S)
  pub session_rules : List (S × List (K × Unit {0}))
  pub session_routes : List (S × List (R × K))

-- `New`
abbrev pub new_manager : {S K R : Type 0} → Manager S K R
new_manager = record { entries = []; session_rules = []; session_routes = [] }

-- Reading a map that is missing gives an empty one, and a missing count is 0.
abbrev pub or_empty {ℓ} : {A : Type ℓ} → Option (List A) → List A
or_empty none = []
or_empty (some m) = m

abbrev pub or_zero : Option ℕ → ℕ
or_zero none = 0
or_zero (some n) = n

abbrev pub is_empty {ℓ} : {A : Type ℓ} → List A → Bool
is_empty [] = true
is_empty (x ∷ xs) = false

-- `familyOf`
abbrev pub family_by : Bool → AclFamily
family_by true = acl_ipv6
family_by false = acl_ipv4

abbrev pub family_of : AclRule → AclFamily
family_of acl = family_by acl.is_ipv6

module _ {S K R : Type 0} ⦃es : Eq S⦄ where
  abbrev pub rules : Manager S K R → S → List (K × Unit {0})
  rules m s = or_empty (lookup s m.session_rules)

  abbrev pub routes : Manager S K R → S → List (R × K)
  routes m s = or_empty (lookup s m.session_routes)
