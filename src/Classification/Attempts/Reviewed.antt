-- ===== src/Classification/Attempts/Reviewed.antt =====
-- No answer of a model is accepted by `classify_text` without a review.
use polder_research_pipeline.Base.{
  ℕ, String, Bool, true, false, not, ◌&&◌, ◌||◌, Option, none, some, inl, inr, List, [], ◌∷◌, ◌++◌,
  map, ◌==◌, all, select, ◌≡◌, refl, sym, ◌∙◌, ap, subst, arith, Bool-cases, if-elim, either_true,
}
use polder_research_pipeline.Base.Result.{Result, ok, raise, after, ok_injective}
use polder_research_pipeline.Base.Dir.{Dir, read, write_atomic-elim, contents, contents-write}
use polder_research_pipeline.Classification.Records.{
  ClassError, Scores, Taxonomy, Labels, FieldDecision, Answer, Subject, Classification,
}
use polder_research_pipeline.Classification.Provider.{is_nil, asks_nothing, admitted, value_at}
use polder_research_pipeline.Classification.Answers.{
  field_decisions, category_decision, tag_decisions, dimension_decisions, choice_answer,
  tag_decision,
}
use polder_research_pipeline.Classification.Attempts.{
  Reply, Setup, has_status, as_proposal, submitted, disposition_of, of_key, settled, previous,
  stored, request, request_unlocked, request-request_unlocked, decided, replied, attempt_record,
  kept_or_new, attempted, proceed, classify_text,
}

-- The record is of the rules, or all its decisions wait for a review and it is not accepted.
abbrev pub is_proposal : {S : Type 0} → Classification S → Bool
is_proposal rec =
    rec.provider == "rules"
    || (all (has_status "review_required") rec.field_decisions
        && not (rec.disposition == "accepted"))

all-proposed :
    {S : Type 0} (fields : List (String × FieldDecision S))
    → all (has_status "review_required") (map as_proposal fields) ≡ true
all-proposed [] = refl
all-proposed (f ∷ fs) = all-proposed fs

all-snoc :
    {A : Type 0} (p : A → Bool) (xs : List A) (x : A)
    → all p xs ≡ true
    → p x ≡ true
    → all p (xs ++ x ∷ []) ≡ true
all-snoc p [] x h px = ground (arith, px)
all-snoc p (y ∷ ys) x h px = ground (arith, all-snoc p ys x, h, px)

module _ {S : Type 0} (scores : Scores S) where
  category-is_nil :
      (answers : List (String × Answer S)) (threshold : S) (cs : List String)
      (fs : List (String × FieldDecision S))
      → category_decision scores answers threshold cs ≡ ok fs
      → is_nil fs ≡ is_nil cs
  unfolding category_decision
  category-is_nil answers threshold [] fs h = ap is_nil (sym (ok_injective h))
  category-is_nil answers threshold (c ∷ cs) fs h =
      after (choice_answer scores (value_at "category" answers) (c ∷ cs) threshold) _ h
        λ decision _ made. ap is_nil (sym (ok_injective made))

  tags-is_nil :
      (answers : List (String × Answer S)) (threshold : S) (ts : List String)
      (fs : List (String × FieldDecision S))
      → tag_decisions scores answers threshold ts ≡ ok fs
      → is_nil fs ≡ is_nil ts
  unfolding tag_decisions
  tags-is_nil answers threshold [] fs h = ap is_nil (sym (ok_injective h))
  tags-is_nil answers threshold (t ∷ ts) fs h =
      after (tag_decision scores _ threshold) _ h λ decision _ rest.
        after (tag_decisions scores answers threshold ts) _ rest
          λ others _ made. ap is_nil (sym (ok_injective made))

  dimensions-is_nil :
      (answers : List (String × Answer S)) (threshold : S) (ds : List (String × List String))
      (fs : List (String × FieldDecision S))
      → dimension_decisions scores answers threshold ds ≡ ok fs
      → is_nil fs ≡ is_nil ds
  unfolding dimension_decisions
  dimensions-is_nil answers threshold [] fs h = ap is_nil (sym (ok_injective h))
  dimensions-is_nil answers threshold ((k, values) ∷ ds) fs h =
      after (choice_answer scores _ values threshold) _ h λ decision _ rest.
        after (dimension_decisions scores answers threshold ds) _ rest
          λ others _ made. ap is_nil (sym (ok_injective made))

  is_nil-append :
      (xs ys : List (String × FieldDecision S)) → is_nil (xs ++ ys) ≡ (is_nil xs && is_nil ys)
  is_nil-append [] ys = refl
  is_nil-append (x ∷ xs) ys = refl

  -- where something is asked, something is decided
  field_decisions-is_nil :
      (answers : List (String × Answer S)) (threshold : S) (taxonomy : Taxonomy)
      (fields : List (String × FieldDecision S))
      → field_decisions scores answers threshold taxonomy ≡ ok fields
      → is_nil fields ≡ asks_nothing taxonomy
  unfolding field_decisions
  field_decisions-is_nil answers threshold taxonomy fields h =
      after (category_decision scores answers threshold taxonomy.categories) _ h
        λ categories first rest1.
          after (tag_decisions scores answers threshold taxonomy.tags) _ rest1 λ tags second rest2.
            after (dimension_decisions scores answers threshold taxonomy.dimensions) _ rest2
              λ dimensions third made.
                subst (λ fs. is_nil fs ≡ asks_nothing taxonomy) (ok_injective made)
                  (is_nil-append (categories ++ tags) dimensions
                    ∙ ap (λ b. b && is_nil dimensions) (is_nil-append categories tags)
                    ∙ ap (λ b. b && is_nil tags && is_nil dimensions)
                        (category-is_nil answers threshold taxonomy.categories categories first)
                    ∙ ap (λ b. is_nil taxonomy.categories && b && is_nil dimensions)
                        (tags-is_nil answers threshold taxonomy.tags tags second)
                    ∙ ap (λ b. is_nil taxonomy.categories && is_nil taxonomy.tags && b)
                        (dimensions-is_nil answers threshold taxonomy.dimensions dimensions third))

module _ {S : Type 0} (setup : Setup S) where
  submitted-proposal :
      (provider : String) (fields : List (String × FieldDecision S))
      → is_nil fields ≡ false
      → (provider == "rules"
          || (all (has_status "review_required") (submitted provider fields)
              && not (disposition_of (submitted provider fields) == "accepted")))
        ≡ true
  unfolding submitted
  submitted-proposal provider [] some_field = absurd (ground (arith, some_field))
  submitted-proposal provider (f ∷ fs) some_field = elim (Bool-cases (provider == "rules")) [
    | inl e ↦ rw (e) refl
    | inr e ↦ rw (e, all-proposed fs) refl
  ]

  attempt_record-proposal :
      (id : String) (now : ℕ) (key : String) (subject : Subject) (provider : String)
      (prior : Option (Classification S)) (predict : String → Reply S) (made : Reply S)
      → asks_nothing setup.config.taxonomy ≡ false
      → is_proposal (
          attempt_record setup id now key subject provider prior
            (decided setup predict made provider))
        ≡ true
  unfolding attempt_record decided
  attempt_record-proposal id now key subject provider prior predict made asks =
      go (decided setup predict made provider) refl
    where
      go :
          (m : Result ClassError (List (String × FieldDecision S)))
          → decided setup predict made provider ≡ m
          → is_proposal (attempt_record setup id now key subject provider prior m) ≡ true
      go (raise e) from = either_true (provider == "rules") _ refl
      go (ok fields) from = after (replied setup predict made provider) _ from λ answers _ rest.
          submitted-proposal provider fields (
            field_decisions-is_nil setup.scores answers setup.config.threshold setup.config.taxonomy
              fields rest
            ∙ asks)

  request-asks :
      (given : Option String) (subject : Subject) (labels : Option Labels) (flagged : Bool)
      (provider : String)
      → request setup given subject labels flagged ≡ ok (some provider)
      → asks_nothing setup.config.taxonomy ≡ false
  unfolding request_unlocked
  request-asks given subject labels flagged provider h =
      elim (if-elim (not setup.config.enabled) _ _
        (request-request_unlocked setup given subject labels flagged provider h)) [
          | inl (_, e) ↦ absurd (ground (arith, e))
          | inr (_, rest) ↦
              after (admitted setup.config given subject.target_kind labels flagged) _ rest
                λ selected _ rest1. elim (if-elim (asks_nothing setup.config.taxonomy) _ _ rest1) [
                  | inl (_, e) ↦ absurd (ground (arith, e))
                  | inr (asks, _) ↦ asks
                ]
        ]

  -- Every call keeps it so that each record that can be read is of the rules, or is a proposal: all
  -- its decisions wait for a review, and it is not accepted. The new id is not in use.
  pub classify_text-proposal :
      (id : String) (now : ℕ) (predict : String → Reply S) (made : Reply S) (given : Option String)
      (subject : Subject) (labels : Option Labels) (flagged : Bool) (d : Dir (Classification S))
      → read id d ≡ none
      → all is_proposal (contents d) ≡ true
      → all is_proposal
          (contents (classify_text setup id now predict made given subject labels flagged d).1)
        ≡ true
  unfolding classify_text proceed attempted kept_or_new stored
  classify_text-proposal id now predict made given subject labels flagged d fresh before =
      go (request setup given subject labels flagged) refl
    where
      go :
          (r : Result ClassError (Option String))
          → request setup given subject labels flagged ≡ r
          → all is_proposal (contents (proceed setup id now predict made subject labels r d).1)
            ≡ true
      go (raise e) asked = before
      go (ok none) asked = before
      go (ok (some provider)) asked = kept (settled (setup.fingerprint subject labels provider) d)
        where
          key : String
          key = setup.fingerprint subject labels provider

          new : Classification S
          new =
              attempt_record setup id now key subject provider
                (previous (select (of_key key) (contents d))) (decided setup predict made provider)

          kept :
              (old : Option (Classification S))
              → all is_proposal (
                  contents
                    (kept_or_new setup id now subject provider key
                      (decided setup predict made provider)
                      old
                      d).1)
                ≡ true
          kept (some old) = before
          kept none =
              elim (write_atomic-elim setup.valid id new d (λ files. (stored new d files).1) refl) [
                | inl (_, e) ↦
                    ap (λ files. all is_proposal (contents files)) (sym e)
                    ∙ ap (all is_proposal) (contents-write id new d fresh)
                    ∙ all-snoc is_proposal (contents d) new before (
                        attempt_record-proposal id now key subject provider _ predict made
                          (request-asks given subject labels flagged provider asked))
                | inr (_, e) ↦ ap (λ files. all is_proposal (contents files)) (sym e) ∙ before
              ]
