-- ===== src/Base/Result.antt =====
-- A pure function that may raise. Each component has its own type of exceptions.
use mathlib.Core.Path.{◌≡◌, refl}
use mathlib.Core.Logic.{◌⊎◌, inl, inr}
use mathlib.Core.Bool.{Bool, true, false}

pub data Result (E A : Type 0) : Type 0 where
  ok : A → Result E A
  raise : E → Result E A

module _ {E : Type 0} where
  infixl 5 ◌>>=◌ ◌>>◌
  abbrev pub ◌>>=◌ : {A B : Type 0} → Result E A → (A → Result E B) → Result E B
  raise e >>= next = raise e
  ok a >>= next = next a

  abbrev pub ◌>>◌ : {B : Type 0} → Result E (Unit {0}) → Result E B → Result E B
  step >> next = step >>= λ _. next

  -- `if refused: raise e`
  abbrev pub refuse : Bool → E → Result E (Unit {0})
  refuse true e = raise e
  refuse false e = ok tt

pub refuse-eq-ok : {E : Type 0} (b : Bool) (e : E) → refuse b e ≡ ok tt → b ≡ false
refuse-eq-ok true e h = cc
refuse-eq-ok false e h = refl

pub Result-cases :
    {E A : Type 0} (r : Result E A) → ((a : A) × (r ≡ ok a)) ⊎ ((e : E) × (r ≡ raise e))
Result-cases (ok a) = inl (a, refl)
Result-cases (raise e) = inr (e, refl)

-- one check and the rest
pub refuse-then :
    {E A : Type 0} (b : Bool) (e : E) (m : Result E A) {a : A}
    → (refuse b e >> m) ≡ ok a
    → (b ≡ false) × (m ≡ ok a)
refuse-then true e m h = cc
refuse-then false e m h = (refl, h)

-- one check and the answer
pub refuse-ok :
    {E A : Type 0} (b : Bool) (e : E) (x : A) {a : A}
    → (refuse b e >> ok x) ≡ ok a
    → (b ≡ false) × (x ≡ a)
refuse-ok true e x h = cc
refuse-ok false e x h = (refl, cc)

-- the value of the first step, and the rest, for the reasons that follow
pub after {ℓ} :
    {E A B : Type 0} {C : Type ℓ} (m : Result E A) (f : A → Result E B) {b : B}
    → (m >>= f) ≡ ok b
    → ((a : A) → m ≡ ok a → f a ≡ ok b → C)
    → C
after (ok a) f h k = k a refl h
after (raise e) f h k = cc

pub ok_injective : {E A : Type 0} {a b : A} → (◌≡◌ {A = Result E A} (ok a) (ok b)) → a ≡ b
ok_injective h = cc

-- a check that was passed, and the rest, for the reasons that follow
pub passed {ℓ} :
    {E B : Type 0} {C : Type ℓ} (b : Bool) (e : E) (m : Result E B) {a : B}
    → (refuse b e >> m) ≡ ok a
    → (b ≡ false → m ≡ ok a → C)
    → C
passed true e m h k = cc
passed false e m h k = k refl h
