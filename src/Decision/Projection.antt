-- ===== src/Decision/Projection.antt =====
-- `build_effective_projection` of decision/projection.py: the effective metadata of an evidence record,
-- from its classifications and their reviews.
use Prim.Native.String.{compare}
use Prim.Native.Nat.{Ordering}
use polder_research_pipeline.Base.{
  ℕ, String, Bool, true, false, not, ◌&&◌, ◌||◌, Option, none, some, List, [], ◌∷◌, ◌++◌, ◌==◌,
  if◌then◌else◌, any, all, select, contains, removeprefix, ◌≡◌, refl, sym, ◌∙◌, ap, subst, arith,
}
use polder_research_pipeline.Base.Dir.{File, damaged, parsed, Dir, contents}
use polder_research_pipeline.Classification.Records.{
  Value, null, text, flag, FieldDecision, Classification,
}
use polder_research_pipeline.Classification.Provider.{value_at}
use polder_research_pipeline.Classification.Attempts.{has_status}
use polder_research_pipeline.Classification.Attempts.Reviewed.{is_proposal}
use polder_research_pipeline.Classification.Review.{Resolution, Review, is_active_id}
pub mod Reviewed
pub mod Tests

-- An evidence record of one of the four kinds; only what the projection reads.
pub record Target : Type 0 where
  pub kind : String
  pub id : String
  pub topic : Option String
  pub tags : List String
  pub classification_ids : List String

pub record Metadata : Type 0 where
  pub topic : Value
  pub tags : List String
  pub dimensions : List (String × Value)

-- `sorted(set(...))`
unfoldable pub insert : String → List String → List String
insert t [] = t ∷ []
insert t (u ∷ us) =
    let rest = insert t us in
    elim (compare t u) [ Ordering.lt ↦ t ∷ u ∷ us | Ordering.eq ↦ u ∷ us | Ordering.gt ↦ u ∷ rest ]

unfoldable pub sorted_set : List String → List String
unfolding insert
sorted_set [] = []
sorted_set (t ∷ ts) = insert t (sorted_set ts)

-- `values[field] = value`
unfoldable pub set_value : String → Value → List (String × Value) → List (String × Value)
set_value field value [] = (field, value) ∷ []
set_value field value ((f, v) ∷ values) =
    if f == field then (f, value) ∷ values else (f, v) ∷ set_value field value values

unfoldable pub apply_resolutions :
    List (String × Resolution) → List (String × Value) → List (String × Value)
unfolding set_value
apply_resolutions [] values = values
apply_resolutions ((field, resolution) ∷ rest) values =
    apply_resolutions rest (set_value field resolution.value values)

unfoldable pub apply_reviews : List Review → List (String × Value) → List (String × Value)
unfolding apply_resolutions
apply_reviews [] values = values
apply_reviews (review ∷ reviews) values =
    apply_reviews reviews (apply_resolutions review.resolutions values)

-- the active reviews of a classification
abbrev pub reviews_of : List Review → String → List Review
reviews_of reviews id =
    select (λ review. is_active_id reviews review.id && review.classification_id == id) reviews

-- the tags that the values turn on
unfoldable pub tags_on : List (String × Value) → List String
tags_on [] = []
tags_on ((field, value) ∷ values) =
    let rest = tags_on values in
    elim (removeprefix "tag_" field) [
      | none ↦ rest
      | some tag ↦ elim value [
        | flag true ↦ tag ∷ rest
        | flag false ↦ rest
        | null ↦ rest
        | text t ↦ rest
      ]
    ]

unfoldable pub dimensions_of : List (String × Value) → List (String × Value)
dimensions_of [] = []
dimensions_of ((field, value) ∷ values) =
    let rest = dimensions_of values in
    elim (removeprefix "dimension_" field) [
      | none ↦ rest
      | some dimension ↦ elim value [
        | null ↦ rest
        | flag b ↦ (dimension, flag b) ∷ rest
        | text t ↦ (dimension, text t) ∷ rest
      ]
    ]

abbrev pub own_topic : Target → Value
own_topic target = elim target.topic [ none ↦ null | some t ↦ text t ]

unfoldable pub metadata_of : Target → List (String × Value) → Metadata
unfolding tags_on dimensions_of sorted_set
metadata_of target values = record {
  topic = elim (value_at "category" values) [ none ↦ own_topic target | some value ↦ value ];
  tags = sorted_set (target.tags ++ tags_on values);
  dimensions = dimensions_of values;
}

module _ {S : Type 0} where
  -- the decisions that were accepted without a review
  unfoldable pub apply_decisions :
      List (String × FieldDecision S) → List (String × Value) → List (String × Value)
  unfolding set_value
  apply_decisions [] values = values
  apply_decisions ((field, decision) ∷ rest) values =
      apply_decisions rest
        (if decision.status == "accepted" then set_value field decision.value values else values)

  unfoldable pub apply_results :
      List Review → List (Classification S) → List (String × Value) → List (String × Value)
  unfolding apply_decisions apply_reviews
  apply_results reviews [] values = values
  apply_results reviews (result ∷ results) values = apply_results reviews results (
      if result.disposition == "failed"
      then values
      else apply_reviews (reviews_of reviews result.id)
          (apply_decisions result.field_decisions values))

  -- `list.sort`, which keeps the order of equal elements
  unfoldable pub insert_by :
      (Classification S → Classification S → Bool)
      → Classification S
      → List (Classification S)
      → List (Classification S)
  insert_by before r [] = r ∷ []
  insert_by before r (q ∷ qs) =
      let rest = insert_by before r qs in if before q r then q ∷ rest else r ∷ q ∷ qs

  unfoldable pub sort_by :
      (Classification S → Classification S → Bool)
      → List (Classification S)
      → List (Classification S)
  unfolding insert_by
  sort_by before [] = []
  sort_by before (r ∷ rs) = insert_by before r (sort_by before rs)

  -- the classifications that are valid and stand under their own id
  unfoldable pub valid_results :
      (Classification S → Bool) → Dir (Classification S) → List (Classification S)
  valid_results valid [] = []
  valid_results valid ((k, damaged) ∷ d) = valid_results valid d
  valid_results valid ((k, parsed rec) ∷ d) =
      let rest = valid_results valid d in if valid rec && rec.id == k then rec ∷ rest else rest

  abbrev pub is_of : Target → Classification S → Bool
  is_of target result =
      result.subject.target_kind == target.kind && result.subject.target_id == target.id

  abbrev pub counts_for : Target → Classification S → Bool
  counts_for target result =
      contains result.id target.classification_ids || not (result.disposition == "failed")

  -- `before` compares the times of creation, and then the ids.
  unfoldable pub target_classifications :
      (Classification S → Classification S → Bool)
      → List (Classification S)
      → Target
      → List (Classification S)
  unfolding sort_by
  target_classifications before results target =
      select (counts_for target) (sort_by before (select (is_of target) results))

  unfoldable pub effective_metadata :
      (Classification S → Classification S → Bool)
      → (Classification S → Bool)
      → Dir (Classification S)
      → List Review
      → Target
      → Metadata
  unfolding target_classifications valid_results metadata_of apply_results
  effective_metadata before valid d reviews target =
      metadata_of target
        (apply_results reviews (target_classifications before (valid_results valid d) target) [])

  -- All kinds of targets, each under its kind and id. The readable evidence records are given in the
  -- order of the source.
  unfoldable pub build_effective_projection :
      (Classification S → Classification S → Bool)
      → (Classification S → Bool)
      → Dir (Classification S)
      → List Review
      → List Target
      → List ((String × String) × Metadata)
  unfolding effective_metadata
  build_effective_projection before valid d reviews [] = []
  build_effective_projection before valid d reviews (target ∷ targets) =
      ((target.kind, target.id), effective_metadata before valid d reviews target)
      ∷ build_effective_projection before valid d reviews targets
