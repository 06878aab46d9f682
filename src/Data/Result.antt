-- ===== src/Data/Result.antt =====
-- A value and Go's `error`, one of which is set.
use flowspec_vpp_agent.Prelude.{◌≡◌, refl, subst, Bool, true, false, Option, none, some}

pub data Result (E A : Type 0) : Type 0 where
  ok : A → Result E A
  err : E → Result E A

module _ {E : Type 0} where
  -- `if !test { return fault }`
  abbrev pub guard : Bool → E → Result E (Unit {0})
  guard test fault = elim test [ true ↦ ok tt | false ↦ err fault ]

  -- `if !found { return fault }`
  abbrev pub require : {A : Type 0} → E → Option A → Result E A
  require fault none = err fault
  require fault (some a) = ok a

  -- The error that the caller gives instead of the callee's
  abbrev pub with_error : {F A : Type 0} → E → Result F A → Result E A
  with_error fault (err _) = err fault
  with_error fault (ok a) = ok a

  infixl 5 ◌>>=◌
  abbrev pub ◌>>=◌ : {X Y : Type 0} → Result E X → (X → Result E Y) → Result E Y
  err fault >>= next = err fault
  ok x >>= next = next x

  infixl 5 ◌>>◌
  abbrev pub ◌>>◌ : {Y : Type 0} → Result E (Unit {0}) → Result E Y → Result E Y
  first >> second = first >>= λ _. second

  -- Two chains agree if their first steps do and the rest does on the first one's value.
  pub >>=-cong :
      {A B : Type 0} (m : Result E A) {m' : Result E A} {f g : A → Result E B}
      → m ≡ m'
      → ((a : A) → m ≡ ok a → f a ≡ g a)
      → (m >>= f) ≡ (m' >>= g)
  >>=-cong (ok a) e h = rw (← e) (h a refl)
  >>=-cong (err _) e h = rw (← e) refl

  pub >>=_assoc :
      {A B C : Type 0} (m : Result E A) (f : A → Result E B) (g : B → Result E C)
      → ((m >>= f) >>= g) ≡ (m >>= λ a. f a >>= g)
  >>=_assoc (ok a) f g = refl
  >>=_assoc (err e) f g = refl

  pub require-eq-ok : {A : Type 0} (e : E) (o : Option A) {a : A} → require e o ≡ ok a → o ≡ some a
  require-eq-ok e none h = cc
  require-eq-ok e (some a) h = cc

pub ok_eq : {E A : Type 0} {a b : A} → ◌≡◌ {A = Result E A} (ok a) (ok b) → a ≡ b
ok_eq h = cc

-- A property of the value, where there is one.
pub data Ensures {E A : Type 0} (P : A → Type 0) : Result E A → Type 0 where
  holds : (a : A) → P a → Ensures P (ok a)
  fails : (e : E) → Ensures P (err e)

module _ {E : Type 0} where
  pub >>=-Ensures :
      {A B : Type 0} {P : A → Type 0} {Q : B → Type 0} {m : Result E A} {f : A → Result E B}
      → Ensures P m
      → ((a : A) → P a → Ensures Q (f a))
      → Ensures Q (m >>= f)
  >>=-Ensures (holds a p) k = k a p
  >>=-Ensures (fails e) k = fails e

  pub guard-Ensures : (t : Bool) (e : E) → Ensures (λ _. t ≡ true) (guard t e)
  guard-Ensures true e = holds tt refl
  guard-Ensures false e = fails e

  pub require-Ensures :
      {A : Type 0} (P : A → Type 0) (e : E) (o : Option A)
      → ((a : A) → o ≡ some a → P a)
      → Ensures P (require e o)
  require-Ensures P e none h = fails e
  require-Ensures P e (some a) h = holds a (h a refl)

  pub with_error-Ensures :
      {F A : Type 0} {P : A → Type 0} {m : Result F A} (e : E)
      → Ensures P m
      → Ensures P (with_error e m)
  with_error-Ensures e (holds a p) = holds a p
  with_error-Ensures e (fails _) = fails e

  pub Ensures-weaken :
      {A : Type 0} {P Q : A → Type 0} {m : Result E A}
      → Ensures P m
      → ((a : A) → P a → Q a)
      → Ensures Q m
  Ensures-weaken (holds a p) h = holds a (h a p)
  Ensures-weaken (fails e) h = fails e

  pub ensured :
      {A : Type 0} {P : A → Type 0} {m : Result E A} → Ensures P m → (a : A) → m ≡ ok a → P a
  ensured {P = P} (holds b p) a h = subst P (ok_eq h) p
  ensured (fails e) a h = cc
