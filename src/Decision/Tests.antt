-- ===== src/Decision/Tests.antt =====
-- The rules of the decision package at concrete inputs.
use polder_research_pipeline.Base.{
  ℕ, ◌≡◌, refl, true, false, not, ◌&&◌, ◌||◌, none, some, ◌==◌, leb, ltb,
}
use polder_research_pipeline.Decision.Privacy.{
  State, remote_eligibility, sensitivity_of, remote_eligibility-allowed,
}
use polder_research_pipeline.Decision.Policy.{
  Answer, evaluate_field, in_range, evaluate_field-applied, evaluate_field-calibrated,
}

abbrev state : State
state = record {
  sensitivity = some "public";
  personal_data = false;
  remote_processing_allowed = true;
}

remote_eligibility-allowed_example : (remote_eligibility state false true true true).allowed ≡ (
    sensitivity_of state == "public"
    && not state.personal_data
    && true
    && true
    && (not true || state.remote_processing_allowed)
    && not false)
remote_eligibility-allowed_example = remote_eligibility-allowed state false true true true

-- scores in thousandths
abbrev sure : Answer ℕ
sure = record { confidence = some 990; answer_confidence = none }

abbrev unsure : Answer ℕ
unsure = record { confidence = none; answer_confidence = some 100 }

evaluate_field-applied_example :
    (evaluate_field leb ltb 0 1000 (some sure) "jev" (some 900) (some 950) false).applied
    ≡ (evaluate_field leb ltb 0 1000 (some unsure) "laya" (some 900) (some 950) false).applied
evaluate_field-applied_example =
    evaluate_field-applied leb ltb 0 1000 sure unsure "jev" "laya" (some 900) (some 950) false

evaluate_field-calibrated_example :
    (false ≡ false)
    × (c : ℕ) × (t : ℕ) × (some 950 ≡ some c)
    × (some 900 ≡ some t)
    × (in_range leb ltb 0 1000 c ≡ true)
    × (ltb c t ≡ false)
unfolding evaluate_field
evaluate_field-calibrated_example =
    evaluate_field-calibrated leb ltb 0 1000 (some unsure) "laya" (some 900) (some 950) false refl
