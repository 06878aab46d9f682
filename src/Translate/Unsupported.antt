-- ===== src/Translate/Unsupported.antt =====
-- internal/translate/unsupported.go: the reasons for which a rule is ignored, and fallible results.
-- The text of an `Unsupported` error only reaches the log; the reason is what is kept here.
use flowspec_vpp_agent.Prelude.{◌⊎◌, inl, inr, ◌≡◌, refl}

pub data Reason : Type 0 where
  unsupported_component unsupported_expression unsupported_action unmappable_prefix : Reason

pub data Result {ℓ} (A : Type ℓ) : Type ℓ where
  ok : A → Result A
  unsupported : Reason → Result A

-- An early return with an error ends the function that it stands in.
infixl 5 ◌>>=◌ ◌>>◌
abbrev pub ◌>>=◌ {ℓ ℓ'} : {V : Type ℓ} {W : Type ℓ'} → Result V → (V → Result W) → Result W
unsupported reason >>= next = unsupported reason
ok v >>= next = next v

abbrev pub ◌>>◌ {ℓ} : {W : Type ℓ} → Result (Unit {0}) → Result W → Result W
check >> next = check >>= λ (_ : Unit {0}). next

-- A function that succeeds has passed each of its checks.
pub >>=-eq-ok {ℓ ℓ'} :
    {V : Type ℓ} {W : Type ℓ'} (r : Result V) (next : V → Result W) {w : W}
    → (r >>= next) ≡ ok w
    → (v : V) × (r ≡ ok v) × (next v ≡ ok w)
>>=-eq-ok (unsupported reason) next e = cc
>>=-eq-ok (ok v) next e = (v, refl, e)

pub ok-injective {ℓ} : {A : Type ℓ} {a b : A} → ok a ≡ ok b → a ≡ b
ok-injective e = cc

pub Result-cases {ℓ} :
    {A : Type ℓ} (m : Result A) → ((a : A) × (m ≡ ok a)) ⊎ ((e : Reason) × (m ≡ unsupported e))
Result-cases (ok a) = inl (a, refl)
Result-cases (unsupported e) = inr (e, refl)
