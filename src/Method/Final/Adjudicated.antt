-- ===== src/Method/Final/Adjudicated.antt =====
-- The final decision of a stage right after its adjudication.
use polder_research_pipeline.Base.{
  String, ◌≡◌, ◌≤◌, refl, ap, ◌∙◌, true, false, some, List, [], ◌∷◌, ◌++◌, ◌==◌, ==_self, arith,
  eq_iff, any, all, last, length, eqb, distinct, contains, select-kept, select-left, if-true, both,
  any-none, eqb-eq, sorted, sym,
}
use polder_research_pipeline.Base.Sets.{contains-sorted, length-distinct-sorted}
use polder_research_pipeline.Method.Records.{Screening}
use polder_research_pipeline.Method.Final.{
  independent, adjudications, ids, reviewer_ids, outcomes, same_set, by_adjudication, agreed,
  final_decision,
}

all-included :
    (xs ys : List String)
    → ((z : String) → contains z ys ≡ true → contains z xs ≡ true)
    → all (λ z. contains z xs) ys ≡ true
all-included xs [] h = refl
all-included xs (y ∷ ys) h =
    let here : contains y (y ∷ ys) ≡ true = ground (arith, ==_self y) in
    let rest = all-included xs ys (λ z e. h z (ground (arith, e))) in ground (arith, h y here, rest)

same_set-sorted : (xs : List String) → same_set (sorted xs) xs ≡ true
same_set-sorted xs =
    both _ _ (all-included xs (sorted xs) (λ z e. sym (contains-sorted z xs) ∙ e))
      (all-included (sorted xs) xs (λ z e. contains-sorted z xs ∙ e))

agreed-adjudicated :
    (xs : List String) (o : String) → eqb (length xs) 1 ≡ false → agreed xs (some o) ≡ some o
unfolding agreed
agreed-adjudicated [] o h = refl
agreed-adjudicated (x ∷ []) o h = absurd (ground arith)
agreed-adjudicated (x ∷ y ∷ xs) o h = refl

-- a list of decisions and an adjudication that resolves exactly them
by_adjudication-exact :
    (a : Screening) (decided : List Screening)
    → a.resolves_decision_ids ≡ sorted (ids decided)
    → length (distinct (ids decided)) ≡ length decided
    → by_adjudication (some a) decided ≡ some a.outcome
unfolding by_adjudication
by_adjudication-exact a decided resolves differ = rw (resolves) (
    if-true _ _ (
      both _ _ (eqb-eq _ _ (length-distinct-sorted (ids decided) ∙ differ))
        (same_set-sorted (ids decided))))

final_decision-two :
    (ds : List Screening)
    → 2 ≤ length (independent ds)
    → 2 ≤ length (distinct (reviewer_ids (independent ds)))
    → final_decision ds
      ≡ agreed
          (distinct (outcomes (independent ds)))
          (by_adjudication (last (adjudications ds)) (independent ds))
unfolding final_decision
final_decision-two ds a b = ground arith

pub adjudicated_lem :
    (ds : List Screening) (a : Screening)
    → 2 ≤ length (independent ds)
    → 2 ≤ length (distinct (reviewer_ids (independent ds)))
    → eqb (length (distinct (outcomes (independent ds)))) 1 ≡ false
    → any (λ d. d.decision_kind == "adjudication") ds ≡ false
    → a.decision_kind ≡ "adjudication"
    → a.resolves_decision_ids ≡ sorted (ids (independent ds))
    → length (distinct (ids (independent ds))) ≡ length (independent ds)
    → final_decision (ds ++ a ∷ []) ≡ some a.outcome
adjudicated_lem ds a two reviewers split unjudged kind resolves differ =
    let same_votes : independent (ds ++ a ∷ []) ≡ independent ds =
      select-left (λ (x : Screening). x.decision_kind == "independent") ds a (rw (kind) refl) in
    let one_verdict : adjudications (ds ++ a ∷ []) ≡ a ∷ [] =
      select-kept (λ (x : Screening). x.decision_kind == "adjudication") ds a ((eq_iff _ _).1 kind)
      ∙ ap (λ t. t ++ a ∷ [])
          (any-none (λ (x : Screening). x.decision_kind == "adjudication") ds unjudged) in
    final_decision-two (ds ++ a ∷ []) (rw (same_votes) two) (rw (same_votes) reviewers)
    ∙ rw (same_votes, one_verdict, by_adjudication-exact a (independent ds) resolves differ)
        (agreed-adjudicated _ _ split)
