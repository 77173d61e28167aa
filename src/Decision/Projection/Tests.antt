-- ===== src/Decision/Projection/Tests.antt =====
-- The theorems on the effective metadata at one claim.
use polder_research_pipeline.Base.{ℕ, ◌≡◌, refl, Bool, false, some, [], ◌∷◌, arith, removeprefix}
use polder_research_pipeline.Classification.Records.{Classification, text}
use polder_research_pipeline.Classification.Provider.{value_at}
use polder_research_pipeline.Classification.Answers.{
  field_decision, validated_choice, choice_decision, choice_answer, tag_decision, tag_decisions,
  dimension_decisions, category_decision, field_decisions,
}
use polder_research_pipeline.Classification.Attempts.{
  submitted, accepted_tags, replied, decided, attempt_record,
}
use polder_research_pipeline.Classification.Tests.{any_record, proposal, stored_once, second}
use polder_research_pipeline.Decision.Projection.{
  Target, sorted_set, insert_by, sort_by, valid_results, target_classifications, effective_metadata,
  own_topic,
}
use polder_research_pipeline.Decision.Projection.Reviewed.{
  effective_metadata-unreviewed, effective_metadata-reviewed,
}

program : Unit {0}
unfolding value_at removeprefix field_decision validated_choice choice_decision choice_answer
    tag_decision tag_decisions dimension_decisions category_decision field_decisions submitted
    accepted_tags replied decided attempt_record sort_by insert_by valid_results
    target_classifications
program = tt

abbrev claim : Target
claim = record {
  kind = "claim";
  id = "clm_1";
  topic = some "power";
  tags = "b" ∷ "a" ∷ "b" ∷ [];
  classification_ids = [];
}

abbrev unordered : Classification ℕ → Classification ℕ → Bool
unordered r q = false

effective_metadata-unreviewed_example :
    effective_metadata unordered any_record stored_once [] claim
    ≡ (record { topic = own_topic claim; tags = sorted_set claim.tags; dimensions = [] })
unfolding program
effective_metadata-unreviewed_example =
    effective_metadata-unreviewed unordered any_record stored_once [] claim refl refl

effective_metadata-reviewed_example :
    (effective_metadata unordered any_record stored_once (second ∷ []) claim).topic ≡ text "health"
unfolding program
effective_metadata-reviewed_example =
    effective_metadata-reviewed unordered any_record stored_once (second ∷ []) claim [] proposal []
      second (record { action = "edit"; value = text "health" }) refl refl refl (omega arith) refl
