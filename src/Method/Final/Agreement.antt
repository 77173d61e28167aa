-- ===== src/Method/Final/Agreement.antt =====
-- When `_final_decision` returns a decision, and when a further decision takes it back.
use polder_research_pipeline.Base.{
  suc, ◌≤◌, String, ◌≡◌, refl, ap, true, false, Option, none, some, ◌⊎◌, inl, inr, List, [], ◌∷◌,
  ◌++◌, eqb, ◌==◌, length, last, distinct, arith, length-append, select-kept, select-left, eq_iff,
}
use polder_research_pipeline.Base.Sets.{All, distinct-singleton, length-distinct-snoc, distinct-pos}
use polder_research_pipeline.Method.Records.{Screening}
use polder_research_pipeline.Method.Final.{
  independent, adjudications, ids, reviewer_ids, outcomes, same_set, by_adjudication, agreed,
  final_decision,
}

-- The decisions of a candidate stage agree on an outcome, or the last adjudication resolves exactly
-- these decisions with it.
abbrev pub Settled : List Screening → String → Type 0
Settled decisions outcome =
    All (λ o. o ≡ outcome) (outcomes (independent decisions))
    ⊎ ((a : Screening) × (last (adjudications decisions) ≡ some a)
        × (a.outcome ≡ outcome)
        × (length (distinct a.resolves_decision_ids) ≡ length (independent decisions))
        × (same_set a.resolves_decision_ids (ids (independent decisions)) ≡ true))

pub by_adjudication-eq-some :
    (last_one : Option Screening) (decided : List Screening) (o : String)
    → by_adjudication last_one decided ≡ some o
    → (a : Screening) × (last_one ≡ some a)
      × (a.outcome ≡ o)
      × (length (distinct a.resolves_decision_ids) ≡ length decided)
      × (same_set a.resolves_decision_ids (ids decided) ≡ true)
unfolding by_adjudication
by_adjudication-eq-some none decided o h = absurd (ground arith)
by_adjudication-eq-some (some a) decided o h = (a, refl, ground arith, ground arith, ground arith)

pub agreed_cases :
    (xs : List String) (adjudicated : Option String) (o : String)
    → agreed xs adjudicated ≡ some o
    → (xs ≡ o ∷ []) ⊎ (adjudicated ≡ some o)
unfolding agreed
agreed_cases [] adjudicated o h = inr h
agreed_cases (x ∷ []) adjudicated o h = inl (ground arith)
agreed_cases (x ∷ y ∷ xs) adjudicated o h = inr h

pub agreed_single :
    (xs : List String) (adjudicated : Option String) (o : String)
    → eqb (length xs) 1 ≡ true
    → agreed xs adjudicated ≡ some o
    → xs ≡ o ∷ []
unfolding agreed
agreed_single [] adjudicated o one h = absurd (ground arith)
agreed_single (x ∷ []) adjudicated o one h = ground arith
agreed_single (x ∷ y ∷ xs) adjudicated o one h = absurd (ground arith)

pub final_decision-eq-some :
    (ds : List Screening) (o : String)
    → final_decision ds ≡ some o
    → (2 ≤ length (independent ds))
      × (2 ≤ length (distinct (reviewer_ids (independent ds))))
      × (agreed
            (distinct (outcomes (independent ds)))
            (by_adjudication (last (adjudications ds)) (independent ds))
          ≡ some o)
unfolding final_decision
final_decision-eq-some ds o h = ground arith

-- A candidate stage has a final decision only if at least two different reviewers decided it
-- independently, and then either all of them chose that outcome, or the last adjudication chose it
-- and resolves exactly their decisions.
pub final_decision-Settled :
    (ds : List Screening) (o : String)
    → final_decision ds ≡ some o
    → (2 ≤ length (distinct (reviewer_ids (independent ds)))) × Settled ds o
final_decision-Settled ds o h =
    let (_, two, e) = final_decision-eq-some ds o h in
    (
      two,
      elim (agreed_cases _ _ o e) [
        | inl single ↦ inl (distinct-singleton o _ single)
        | inr adjudicated ↦ inr (by_adjudication-eq-some _ _ o adjudicated)
      ],
    )

agreed-none : (xs : List String) → eqb (length xs) 1 ≡ false → agreed xs none ≡ none
unfolding agreed
agreed-none [] h = refl
agreed-none (x ∷ []) h = absurd (ground arith)
agreed-none (x ∷ y ∷ xs) h = refl

length-outcomes : (ds : List Screening) → length (outcomes ds) ≡ length ds
length-outcomes [] = refl
length-outcomes (d ∷ ds) = ap suc (length-outcomes ds)

outcomes-append : (ds es : List Screening) → outcomes (ds ++ es) ≡ outcomes ds ++ outcomes es
outcomes-append [] es = refl
outcomes-append (d ∷ ds) es = ap (◌∷◌ d.outcome) (outcomes-append ds es)

-- the same over the independent decisions alone
late_lem :
    (decided : List Screening) (d : Screening) (last_one : Option Screening) (o : String)
    → 2 ≤ length decided
    → by_adjudication last_one decided ≡ some o
    → eqb (length (distinct (outcomes decided))) 1 ≡ false
    → agreed
        (distinct (outcomes (decided ++ d ∷ [])))
        (by_adjudication last_one (decided ++ d ∷ []))
      ≡ none
unfolding by_adjudication
late_lem decided d none o two h split = absurd (ground arith)
late_lem decided d (some a) o two h split =
    let longer = length-append decided (d ∷ []) in
    let passed_over : by_adjudication (some a) (decided ++ d ∷ []) ≡ none = ground arith in
    let more = length-distinct-snoc (outcomes decided) d.outcome in
    let some_outcome = distinct-pos (outcomes decided) (omega (arith, length-outcomes decided)) in
    rw (passed_over, outcomes-append)
      (agreed-none (distinct (outcomes decided ++ d.outcome ∷ [])) (ground arith))

not_adjudication :
    (d : Screening) → d.decision_kind ≡ "independent" → (d.decision_kind == "adjudication") ≡ false
not_adjudication d kind = rw (kind) refl

-- Once a disagreement has been adjudicated, one more independent decision leaves the stage with no
-- final decision, whatever the new decision says.
pub final_decision-late :
    (ds : List Screening) (d : Screening) (o : String)
    → final_decision ds ≡ some o
    → eqb (length (distinct (outcomes (independent ds)))) 1 ≡ false
    → d.decision_kind ≡ "independent"
    → final_decision (ds ++ d ∷ []) ≡ none
unfolding final_decision
final_decision-late ds d o h split kind =
    let (two, _, e) = final_decision-eq-some ds o h in
    let one_more : independent (ds ++ d ∷ []) ≡ independent ds ++ d ∷ [] =
      select-kept (λ (x : Screening). x.decision_kind == "independent") ds d
        ((eq_iff _ _).1 kind) in
    let no_more : adjudications (ds ++ d ∷ []) ≡ adjudications ds =
      select-left (λ (x : Screening). x.decision_kind == "adjudication") ds d
        (not_adjudication d kind) in
    elim (agreed_cases _ _ o e) [
      | inl single ↦ absurd (ground arith)
      | inr adjudicated ↦
          let none_now =
            late_lem (independent ds) d (last (adjudications ds)) o two adjudicated split in
          rw (one_more, no_more) (ground (arith, none_now))
    ]
