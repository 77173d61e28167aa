-- ===== src/Decision/Projection/Reviewed.antt =====
-- What reaches the effective metadata: only what a person has reviewed, or the rules have decided.
use polder_research_pipeline.Base.{
  ◌≤◌, String, Bool, true, false, not, ◌&&◌, Option, none, some, List, [], ◌∷◌, ◌++◌, inl, inr,
  ◌==◌, if◌then◌else◌, any, all, select, length, ◌≡◌, refl, ◌∙◌, ap, arith, eq_iff, Bool-cases,
  if-true, if-false, any-none,
}
use polder_research_pipeline.Base.Dir.{damaged, parsed, Dir, contents}
use polder_research_pipeline.Classification.Records.{Value, FieldDecision, Classification}
use polder_research_pipeline.Classification.Provider.{value_at}
use polder_research_pipeline.Classification.Attempts.{has_status}
use polder_research_pipeline.Classification.Attempts.Reviewed.{is_proposal}
use polder_research_pipeline.Classification.Review.{Resolution, Review, is_active_id}
use polder_research_pipeline.Decision.Projection.{
  Target, sorted_set, set_value, apply_resolutions, apply_reviews, reviews_of, tags_on,
  dimensions_of, own_topic, metadata_of, apply_decisions, apply_results, insert_by, sort_by,
  valid_results, is_of, counts_for, target_classifications, effective_metadata,
}

all-select :
    {A : Type 0} (p q : A → Bool) (xs : List A) → all q xs ≡ true → all q (select p xs) ≡ true
all-select p q [] h = refl
all-select p q (x ∷ xs) h = ground (arith, h, all-select p q xs)

append_nil : {A : Type 0} (xs : List A) → xs ++ [] ≡ xs
append_nil [] = refl
append_nil (x ∷ xs) = ap (λ ys. x ∷ ys) (append_nil xs)

any-weaker :
    {A : Type 0} (p q : A → Bool) (xs : List A)
    → any p xs ≡ false
    → any (λ x. p x && q x) xs ≡ false
any-weaker p q [] h = refl
any-weaker p q (x ∷ xs) h = ground (arith, h, any-weaker p q xs)

module _ {S : Type 0} where
  -- a proposal of a model
  abbrev pub is_unreviewed : Classification S → Bool
  is_unreviewed rec = is_proposal rec && not (rec.provider == "rules")

  all-insert_by :
      (before : Classification S → Classification S → Bool) (q : Classification S → Bool)
      (r : Classification S) (rs : List (Classification S))
      → q r ≡ true
      → all q rs ≡ true
      → all q (insert_by before r rs) ≡ true
  unfolding insert_by
  all-insert_by before q r [] hr h = ground (arith, hr)
  all-insert_by before q r (x ∷ xs) hr h = ground (arith, hr, h, all-insert_by before q r xs)

  all-sort_by :
      (before : Classification S → Classification S → Bool) (q : Classification S → Bool)
      (rs : List (Classification S))
      → all q rs ≡ true
      → all q (sort_by before rs) ≡ true
  unfolding sort_by
  all-sort_by before q [] h = refl
  all-sort_by before q (r ∷ rs) h =
      all-insert_by before q r (sort_by before rs) (ground (arith, h))
        (all-sort_by before q rs (ground (arith, h)))

  all-valid_results :
      (valid q : Classification S → Bool) (d : Dir (Classification S))
      → all q (contents d) ≡ true
      → all q (valid_results valid d) ≡ true
  unfolding valid_results
  all-valid_results valid q [] h = refl
  all-valid_results valid q ((k, damaged) ∷ d) h = all-valid_results valid q d h
  all-valid_results valid q ((k, parsed rec) ∷ d) h = ground (arith, h, all-valid_results valid q d)

  apply_decisions-proposed :
      (fields : List (String × FieldDecision S)) (values : List (String × Value))
      → all (has_status "review_required") fields ≡ true
      → apply_decisions fields values ≡ values
  unfolding apply_decisions
  apply_decisions-proposed [] values h = refl
  apply_decisions-proposed ((field, decision) ∷ rest) values h =
      let status : decision.status ≡ "review_required" =
        (eq_iff decision.status "review_required").0 (ground (arith, h)) in
      ap (λ v. apply_decisions rest v) (if-false _ _ (ap (λ s. s == "accepted") status))
      ∙ apply_decisions-proposed rest values (ground (arith, h))

  apply_results-unreviewed :
      (reviews : List Review) (results : List (Classification S)) (values : List (String × Value))
      → any (λ review. is_active_id reviews review.id) reviews ≡ false
      → all is_unreviewed results ≡ true
      → apply_results reviews results values ≡ values
  unfolding apply_results apply_reviews
  apply_results-unreviewed reviews [] values inactive h = refl
  apply_results-unreviewed reviews (result ∷ results) values inactive h =
      let fields : all (has_status "review_required") result.field_decisions ≡ true =
        ground (arith, h) in
      let unreviewed : reviews_of reviews result.id ≡ [] = any-none _ reviews (
        any-weaker (λ review. is_active_id reviews review.id)
          (λ review. review.classification_id == result.id) reviews inactive) in
      let same : apply_reviews (reviews_of reviews result.id)
            (apply_decisions result.field_decisions values)
          ≡ values =
        ap (λ rs. apply_reviews rs (apply_decisions result.field_decisions values)) unreviewed
        ∙ apply_decisions-proposed result.field_decisions values fields in
      ap (apply_results reviews results) (either_way (result.disposition == "failed") values _ same)
      ∙ apply_results-unreviewed reviews results values inactive (ground (arith, h))
    where
      either_way : (b : Bool) (v w : List (String × Value)) → w ≡ v → (if b then v else w) ≡ v
      either_way true v w e = refl
      either_way false v w e = e

  -- If every classification that can be read is a proposal of a model, as classify_text stores them,
  -- and no review is active, then the effective metadata of a record are its own: its topic, its
  -- tags, each once and in order, and no dimensions.
  pub effective_metadata-unreviewed :
      (before : Classification S → Classification S → Bool) (valid : Classification S → Bool)
      (d : Dir (Classification S)) (reviews : List Review) (target : Target)
      → all is_unreviewed (contents d) ≡ true
      → any (λ review. is_active_id reviews review.id) reviews ≡ false
      → effective_metadata before valid d reviews target
        ≡ (record { topic = own_topic target; tags = sorted_set target.tags; dimensions = [] })
  unfolding effective_metadata target_classifications metadata_of tags_on dimensions_of value_at
  effective_metadata-unreviewed before valid d reviews target proposals inactive =
      ap (metadata_of target) (
        apply_results-unreviewed reviews
          (target_classifications before (valid_results valid d) target) [] inactive
          (all-select (counts_for target) is_unreviewed
            (sort_by before (select (is_of target) (valid_results valid d)))
            (all-sort_by before is_unreviewed (select (is_of target) (valid_results valid d)) (
              all-select (is_of target) is_unreviewed (valid_results valid d)
                (all-valid_results valid is_unreviewed d proposals)))))
      ∙ ap (λ tags. record { topic = own_topic target; tags = sorted_set tags; dimensions = [] })
          (append_nil target.tags)

value_at-set_value :
    (f field : String) (value : Value) (values : List (String × Value))
    → value_at f (set_value field value values)
      ≡ (if field == f then some value else value_at f values)
unfolding value_at set_value
value_at-set_value f field value [] = refl
value_at-set_value f field value ((g, v) ∷ values) =
    ground
      (arith, value_at-set_value f field value values, eq_iff g field, eq_iff field f, eq_iff g f)

-- resolutions of other fields do not change a field
apply_resolutions-other :
    (f : String) (rs : List (String × Resolution)) (values : List (String × Value))
    → select (λ p. p.0 == f) rs ≡ []
    → value_at f (apply_resolutions rs values) ≡ value_at f values
unfolding apply_resolutions
apply_resolutions-other f [] values h = refl
apply_resolutions-other f ((field, resolution) ∷ rs) values h = elim (Bool-cases (field == f)) [
  | inl e ↦ absurd (ground (arith, e, h))
  | inr e ↦
      apply_resolutions-other f rs (set_value field resolution.value values) (ground (arith, e, h))
      ∙ value_at-set_value f field resolution.value values
      ∙ if-false _ _ e
]

apply_resolutions-value :
    (f : String) (rs : List (String × Resolution)) (values : List (String × Value))
    (resolution : Resolution)
    → length (select (λ p. p.0 == f) rs) ≤ 1
    → value_at f rs ≡ some resolution
    → value_at f (apply_resolutions rs values) ≡ some resolution.value
unfolding apply_resolutions value_at
apply_resolutions-value f [] values resolution once h = absurd (ground (arith, h))
apply_resolutions-value f ((field, r) ∷ rs) values resolution once h =
    elim (Bool-cases (field == f)) [
      | inl e ↦
          let same : r ≡ resolution = some_same (ground (arith, e, h)) in
          apply_resolutions-other f rs (set_value field r.value values)
            (no_more (select (λ p. p.0 == f) rs) (ground (arith, e, once)))
          ∙ value_at-set_value f field r.value values
          ∙ if-true _ _ e
          ∙ ap (λ x. some x.value) same
      | inr e ↦
          apply_resolutions-value f rs (set_value field r.value values) resolution
            (ground (arith, e, once)) (ground (arith, e, h))
    ]
  where
    some_same : {a b : Resolution} → (◌≡◌ {A = Option Resolution} (some a) (some b)) → a ≡ b
    some_same h = cc

    no_more : (ys : List (String × Resolution)) → length ys ≤ 0 → ys ≡ []
    no_more [] h = refl
    no_more (y ∷ ys) h = absurd (omega (arith, h))

apply_reviews-append :
    (xs ys : List Review) (values : List (String × Value))
    → apply_reviews (xs ++ ys) values ≡ apply_reviews ys (apply_reviews xs values)
unfolding apply_reviews
apply_reviews-append [] ys values = refl
apply_reviews-append (x ∷ xs) ys values =
    apply_reviews-append xs ys (apply_resolutions x.resolutions values)

module _ {S : Type 0} where
  apply_results-append :
      (reviews : List Review) (xs ys : List (Classification S)) (values : List (String × Value))
      → apply_results reviews (xs ++ ys) values
        ≡ apply_results reviews ys (apply_results reviews xs values)
  unfolding apply_results
  apply_results-append reviews [] ys values = refl
  apply_results-append reviews (x ∷ xs) ys values = apply_results-append reviews xs ys _

  -- If the last classification of a record has not failed, and its last active review resolves the
  -- category, once, then the effective topic of the record is the value of the reviewer, whatever
  -- the classifications and the other reviews say.
  pub effective_metadata-reviewed :
      (before : Classification S → Classification S → Bool) (valid : Classification S → Bool)
      (d : Dir (Classification S)) (reviews : List Review) (target : Target)
      (earlier : List (Classification S)) (result : Classification S) (older : List Review)
      (review : Review) (resolution : Resolution)
      → target_classifications before (valid_results valid d) target ≡ earlier ++ result ∷ []
      → (result.disposition == "failed") ≡ false
      → reviews_of reviews result.id ≡ older ++ review ∷ []
      → length (select (λ p. p.0 == "category") review.resolutions) ≤ 1
      → value_at "category" review.resolutions ≡ some resolution
      → (effective_metadata before valid d reviews target).topic ≡ resolution.value
  unfolding effective_metadata metadata_of apply_results apply_reviews
  effective_metadata-reviewed before valid d reviews target earlier result older review resolution
        last usable last_review once resolved =
      let values = apply_results reviews earlier [] in
      let decided = apply_decisions result.field_decisions values in
      let path : apply_results reviews
            (target_classifications before (valid_results valid d) target) []
          ≡ apply_resolutions review.resolutions (apply_reviews older decided) =
        ap (λ rs. apply_results reviews rs []) last
        ∙ apply_results-append reviews earlier (result ∷ []) []
        ∙ if-false _ _ usable
        ∙ ap (λ rs. apply_reviews rs decided) last_review
        ∙ apply_reviews-append older (review ∷ []) decided in
      ap (λ (o : Option Value). elim o [ none ↦ own_topic target | some value ↦ value ])
        (ap (value_at "category") path
          ∙ apply_resolutions-value "category" review.resolutions (apply_reviews older decided)
              resolution once resolved)
