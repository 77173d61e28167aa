-- ===== src/Base/Exec.antt =====
-- Operations that change stored state and may raise. What was written before an exception stays
-- written, so the state comes back beside the exception too.
use mathlib.Core.Path.{◌≡◌, refl, ap}
use native.Mathlib.Omega.{arith}
use polder_research_pipeline.Base.Result.{Result, ok, raise}

abbrev pub Exec : Type 0 → Type 0 → Type 0 → Type 0
Exec E S A = S → Result E A × S

abbrev pub continue : {E S A B : Type 0} → Result E A → (A → Exec E S B) → Exec E S B
continue (raise e) rest s = (raise e, s)
continue (ok a) rest s = rest a s

-- the result and the state of the first step, and the rest, for the reasons that follow
pub after_step {ℓ} :
    {E S A B : Type 0} {C : Type ℓ} (r : Result E A × S) (f : A → Exec E S B) {b : B} {t : S}
    → continue r.0 f r.1 ≡ (ok b, t)
    → ((a : A) (s : S) → r ≡ (ok a, s) → f a s ≡ (ok b, t) → C)
    → C
after_step (ok a, s) f h k = k a s refl h
after_step (raise e, s) f h k = absurd (ground (arith, ap (λ x. x.0) h))
