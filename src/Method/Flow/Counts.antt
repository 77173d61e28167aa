-- ===== src/Method/Flow/Counts.antt =====
-- The decisions under which the flow counts, and the final decisions.
use polder_research_pipeline.Base.{
  ◌≤◌, String, ◌≡◌, ap, ◌∙◌, false, List, [], ◌∷◌, some, arith, inl, inr, last, eqb, length,
  distinct, Bool-cases, if-true, if-false, if◌then◌else◌,
}
use polder_research_pipeline.Base.Sets.{All, distinct-singleton}
use polder_research_pipeline.Method.Records.{Protocol, Screening}
use polder_research_pipeline.Method.Final.{
  independent, adjudications, reviewer_ids, outcomes, groups_of, final_decision, by_adjudication,
  agreed,
}
use polder_research_pipeline.Method.Final.Agreement.{
  final_decision-eq-some, agreed_cases, agreed_single, by_adjudication-eq-some,
}
use polder_research_pipeline.Method.Flow.{last_outcome, first_outcome, flow_decision}

flow_decision-two :
    (protocol : Protocol) (ds : List Screening)
    → 2 ≤ length (independent ds)
    → 2 ≤ length (distinct (reviewer_ids (independent ds)))
    → 2 ≤ length (distinct (groups_of protocol.reviewers (reviewer_ids (independent ds))))
    → flow_decision protocol ds ≡ (
        if eqb (length (distinct (outcomes (independent ds)))) 1
        then first_outcome (independent ds)
        else last_outcome (last (adjudications ds)))
unfolding flow_decision
flow_decision-two protocol ds a b c = ground arith

first_outcome-All :
    (ds : List Screening) (o : String)
    → 1 ≤ length ds
    → All (λ x. x ≡ o) (outcomes ds)
    → first_outcome ds ≡ some o
first_outcome-All [] o h all = absurd (omega arith)
first_outcome-All (d ∷ ds) o h (e, _) = ap some e

-- an agreement on the adjudicated outcome
adjudicated_outcome :
    (ds : List Screening) (o : String)
    → eqb (length (distinct (outcomes (independent ds)))) 1 ≡ false
    → agreed
        (distinct (outcomes (independent ds)))
        (by_adjudication (last (adjudications ds)) (independent ds))
      ≡ some o
    → last_outcome (last (adjudications ds)) ≡ some o
adjudicated_outcome ds o split e = elim (agreed_cases _ _ o e) [
  | inl single ↦ absurd (ground arith)
  | inr adjudicated ↦
      let (a, is_last, same, _, _) = by_adjudication-eq-some _ _ o adjudicated in
      ap last_outcome is_last ∙ ap some same
]

-- Where the independent decisions of a stage come from at least two independence groups, the flow
-- counts the stage under its final decision.
pub flow_decision-final_decision :
    (protocol : Protocol) (ds : List Screening) (o : String)
    → final_decision ds ≡ some o
    → 2 ≤ length (distinct (groups_of protocol.reviewers (reviewer_ids (independent ds))))
    → flow_decision protocol ds ≡ some o
flow_decision-final_decision protocol ds o h groups =
    let (two, reviewers, e) = final_decision-eq-some ds o h in
    flow_decision-two protocol ds two reviewers groups
    ∙ elim (Bool-cases (eqb (length (distinct (outcomes (independent ds)))) 1)) [
      | inl one ↦
          if-true _ _ one
          ∙ first_outcome-All (independent ds) o (omega (arith, two))
              (distinct-singleton o (outcomes (independent ds)) (agreed_single _ _ o one e))
      | inr split ↦ if-false _ _ split ∙ adjudicated_outcome ds o split e
    ]
