-- ===== src/Decision/Policy.antt =====
-- `evaluate_field` of decision/policy.py. Scores are of any type with two comparisons, `<=` and `<`,
-- which need not agree, as for a NaN; the answer is what stands at its confidence keys, where it is
-- an object at all.
use polder_research_pipeline.Base.{
  String, ◌≡◌, refl, Bool, true, false, not, ◌&&◌, Option, none, some, ◌==◌, if◌then◌else◌, arith,
  Bool-cases, if-true, if-false, inl, inr, sym, ap, ◌∙◌,
}

pub data Reason : Type 0 where
  abstained calibration_unavailable below_target_correctness calibrated_target_met : Reason

not-true : (b : Bool) → not b ≡ true → b ≡ false
not-true b h = ground arith

module _ (S : Type 0) where
  pub record Answer : Type 0 where
    pub confidence : Option S
    pub answer_confidence : Option S

  pub record Outcome : Type 0 where
    pub applied : Bool
    pub reason : Reason
    pub provider : String
    pub provider_signal : Option S
    pub calibrated_correctness : Option S
    pub target_correctness : Option S

module _ {S : Type 0} (le lt : S → S → Bool) (zero one : S) where
  abbrev pub in_range : S → Bool
  in_range x = le zero x && le x one

  -- the native score, where it is a number between 0 and 1
  unfoldable pub signal : String → Answer S → Option S
  signal provider answer =
      elim (if provider == "laya" then answer.answer_confidence else answer.confidence) [
        | none ↦ none
        | some x ↦ if in_range x then some x else none
      ]

  -- both numbers are there, and the first is a probability
  unfoldable pub calibrated : Option S → Option S → Option (S × S)
  calibrated (some c) (some t) = if in_range c then some (c, t) else none
  calibrated _ _ = none

  abbrev review : Reason → String → Option S → Outcome S
  review reason provider native = record {
    applied = false;
    reason = reason;
    provider = provider;
    provider_signal = native;
    calibrated_correctness = none;
    target_correctness = none;
  }

  unfoldable pub gated : String → Option S → Option (S × S) → Outcome S
  gated provider native none = review calibration_unavailable provider native
  gated provider native (some (c, t)) = record {
    applied = not (lt c t);
    reason = if lt c t then below_target_correctness else calibrated_target_met;
    provider = provider;
    provider_signal = native;
    calibrated_correctness = some c;
    target_correctness = some t;
  }

  unfoldable pub evaluate_field :
      Option (Answer S) → String → Option S → Option S → Bool → Outcome S
  unfolding signal calibrated gated
  evaluate_field none provider threshold correctness abstains = review abstained provider none
  evaluate_field (some answer) provider threshold correctness abstains =
      if abstains
      then review abstained provider none
      else gated provider (signal provider answer) (calibrated correctness threshold)

  gated-applied :
      (p q : String) (m n : Option S) (o : Option (S × S))
      → (gated p m o).applied ≡ (gated q n o).applied
  unfolding gated
  gated-applied p q m n none = refl
  gated-applied p q m n (some (c, t)) = refl

  -- Whether an answer is applied depends neither on the provider nor on any score of its own.
  pub evaluate_field-applied :
      (a b : Answer S) (p q : String) (threshold correctness : Option S) (abstains : Bool)
      → (evaluate_field (some a) p threshold correctness abstains).applied
        ≡ (evaluate_field (some b) q threshold correctness abstains).applied
  unfolding evaluate_field
  evaluate_field-applied a b p q threshold correctness true = refl
  evaluate_field-applied a b p q threshold correctness false =
      gated-applied p q (signal p a) (signal q b) (calibrated correctness threshold)

  calibrated-applied :
      (p : String) (m threshold correctness : Option S)
      → (gated p m (calibrated correctness threshold)).applied ≡ true
      → (c : S) × (t : S) × (correctness ≡ some c)
        × (threshold ≡ some t)
        × (in_range c ≡ true)
        × (lt c t ≡ false)
  unfolding gated calibrated
  calibrated-applied p m none none h = absurd (ground arith)
  calibrated-applied p m none (some c) h = absurd (ground arith)
  calibrated-applied p m (some t) none h = absurd (ground arith)
  calibrated-applied p m (some t) (some c) h = elim (Bool-cases (in_range c)) [
    | inl e ↦ (
      c,
      t,
      refl,
      refl,
      e,
      not-true _ (sym (ap (λ o. (gated p m o).applied) (if-true (some (c, t)) none e)) ∙ h),
    )
    | inr e ↦
        let not_applied =
          sym (ap (λ o. (gated p m o).applied) (if-false (some (c, t)) none e)) ∙ h in
        absurd (ground arith)
  ]

  -- An answer is applied only if the provider did not abstain and there is a calibrated correctness,
  -- a probability, that is not below the threshold.
  pub evaluate_field-calibrated :
      (answer : Option (Answer S)) (provider : String) (threshold correctness : Option S)
      (abstains : Bool)
      → (evaluate_field answer provider threshold correctness abstains).applied ≡ true
      → (abstains ≡ false)
        × (c : S) × (t : S) × (correctness ≡ some c)
        × (threshold ≡ some t)
        × (in_range c ≡ true)
        × (lt c t ≡ false)
  unfolding evaluate_field
  evaluate_field-calibrated none provider threshold correctness abstains h = absurd (ground arith)
  evaluate_field-calibrated (some a) provider threshold correctness true h = absurd (ground arith)
  evaluate_field-calibrated (some a) provider threshold correctness false h =
      let (c, t, e1, e2, e3, e4) =
        calibrated-applied provider (signal provider a) threshold correctness h in
      (refl, c, t, e1, e2, e3, e4)
