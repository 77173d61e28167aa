-- ===== src/Classification/Answers.antt =====
-- How `_classify_text_unlocked` reads a provider's answers: `_field_decision`,
-- `_validated_choice_probabilities`, `_validated_category`, `_validated_tags` and
-- `_validated_dimensions`.
use polder_research_pipeline.Base.{
  String, ◌<>◌, Bool, false, not, ◌&&◌, Option, none, some, List, [], ◌∷◌, ◌++◌, map, ◌==◌,
  if◌then◌else◌, all, contains,
}
use polder_research_pipeline.Base.Result.{Result, ok, raise, refuse, ◌>>=◌, ◌>>◌}
use polder_research_pipeline.Classification.Records.{
  ClassError, bad_probability, missing_answer, bad_type, bad_choice, keys_differ, not_normalized,
  not_maximal, Scores, Taxonomy, null, text, flag, FieldDecision, Answer,
}
use polder_research_pipeline.Classification.Provider.{value_at}

abbrev pub is_type : String → Option String → Bool
is_type expected none = false
is_type expected (some actual) = actual == expected

abbrev pub keys : {A : Type 0} → List (String × A) → List String
keys pairs = map (λ p. p.0) pairs

-- the same set of keys
abbrev pub same_keys : List String → List String → Bool
same_keys xs ys = all (λ x. contains x ys) xs && all (λ y. contains y xs) ys

module _ {S : Type 0} (scores : Scores S) where
  unfoldable pub field_decision : S → S → String
  field_decision score threshold =
      if scores.leq threshold score
      then "accepted"
      else if scores.leq score (scores.rest threshold)
      then "rejected"
      else "review_required"

  abbrev pub probability : S → Result ClassError S
  probability x = if scores.is_probability x then ok x else raise bad_probability

  -- a number that may be missing
  abbrev pub optional : Option S → Result ClassError (Option S)
  optional none = ok none
  optional (some x) = if scores.is_probability x then ok (some x) else raise bad_probability

  abbrev pub required : Option S → Result ClassError S
  required none = raise bad_probability
  required (some x) = probability x

  abbrev pub given_probabilities : Answer S → Result ClassError (List (String × S))
  given_probabilities answer = elim answer.probabilities [
    | none ↦ raise keys_differ
    | some given ↦ ok given
  ]

  abbrev pub probability_of : String → List (String × S) → Result ClassError S
  probability_of choice given = elim (value_at choice given) [
    | none ↦ raise bad_choice
    | some x ↦ ok x
  ]

  -- a choice among the values, with its probability and the reported confidence
  unfoldable pub validated_choice :
      Answer S → String → List String → Result ClassError (S × Option S)
  validated_choice answer choice values = do
    refuse (not (contains choice values)) bad_choice
    given ← given_probabilities answer
    refuse (not (same_keys (keys given) values)) keys_differ
    refuse (not (all (λ p. scores.is_probability p.1) given)) bad_probability
    refuse (not (scores.is_close (map (λ p. p.1) given))) not_normalized
    selected ← probability_of choice given
    refuse (not (all (λ p. scores.leq p.1 selected) given)) not_maximal
    reported ← optional answer.confidence
    ok (selected, reported)

  abbrev pub abstained : Option S → FieldDecision S
  abstained reported = record {
    status = "abstained";
    value = null;
    probability = none;
    provider_confidence = reported;
  }

  -- a decision on a choice, which may be none
  unfoldable pub choice_decision : Answer S → List String → S → Result ClassError (FieldDecision S)
  choice_decision answer values threshold = elim answer.choice [
    | none ↦ (do reported ← optional answer.confidence; ok (abstained reported))
    | some choice ↦ (do
      found ← validated_choice answer choice values
      ok (record {
        status = field_decision found.0 threshold;
        value = text choice;
        probability = some found.0;
        provider_confidence = found.1;
      }))
  ]

  unfoldable pub choice_answer :
      Option (Answer S) → List String → S → Result ClassError (FieldDecision S)
  choice_answer none values threshold = raise missing_answer
  choice_answer (some answer) values threshold = do
    refuse (not (is_type "choice" answer.answer_type)) bad_type
    choice_decision answer values threshold

  unfoldable pub tag_decision : Option (Answer S) → S → Result ClassError (FieldDecision S)
  tag_decision none threshold = raise missing_answer
  tag_decision (some answer) threshold = do
    refuse (not (is_type "noul" answer.answer_type)) bad_type
    score ← required answer.noul
    ok (record {
      status = field_decision score threshold;
      value = flag (field_decision score threshold == "accepted");
      probability = some score;
      provider_confidence = none;
    })

  -- the decisions of the tags, under their keys, in the order of the taxonomy
  unfoldable pub tag_decisions :
      List (String × Answer S)
      → S
      → List String
      → Result ClassError (List (String × FieldDecision S))
  tag_decisions answers threshold [] = ok []
  tag_decisions answers threshold (tag ∷ tags) = do
    decision ← tag_decision (value_at ("tag_" <> tag) answers) threshold
    others ← tag_decisions answers threshold tags
    ok (("tag_" <> tag, decision) ∷ others)

  unfoldable pub dimension_decisions :
      List (String × Answer S)
      → S
      → List (String × List String)
      → Result ClassError (List (String × FieldDecision S))
  dimension_decisions answers threshold [] = ok []
  dimension_decisions answers threshold ((dimension, values) ∷ dimensions) = do
    decision ← choice_answer (value_at ("dimension_" <> dimension) answers) values threshold
    others ← dimension_decisions answers threshold dimensions
    ok (("dimension_" <> dimension, decision) ∷ others)

  unfoldable pub category_decision :
      List (String × Answer S)
      → S
      → List String
      → Result ClassError (List (String × FieldDecision S))
  category_decision answers threshold [] = ok []
  category_decision answers threshold (c ∷ cs) = do
    decision ← choice_answer (value_at "category" answers) (c ∷ cs) threshold
    ok (("category", decision) ∷ [])

  -- all decisions of a result
  unfoldable pub field_decisions :
      List (String × Answer S) → S → Taxonomy → Result ClassError (List (String × FieldDecision S))
  field_decisions answers threshold taxonomy = do
    categories ← category_decision answers threshold taxonomy.categories
    tags ← tag_decisions answers threshold taxonomy.tags
    dimensions ← dimension_decisions answers threshold taxonomy.dimensions
    ok (categories ++ tags ++ dimensions)
