-- ===== src/Method/Screening/Resolved.antt =====
-- An adjudication settles its stage, once.
use polder_research_pipeline.Base.{
  select_once, ℕ, String, ◌≡◌, ◌≤◌, refl, sym, ap, subst, ◌∙◌, Bool, true, false, ◌&&◌, not, ◌||◌,
  List, none, some, ◌==◌, arith, eq_iff, select, any, length, ltb, eqb, distinct, select-kept,
  any-select, ==_self, both, sorted,
}
use polder_research_pipeline.Base.Result.{ok, after, passed, ok_injective}
use polder_research_pipeline.Base.Dir.{read, contents}
use polder_research_pipeline.Base.Time.{at}
use polder_research_pipeline.Method.Records.{
  not_adjudicator, not_unique, bad_outcome, no_disagreement, already_adjudicated, Run, Protocol,
  Screening, Store, Checks,
}
use polder_research_pipeline.Method.Final.{independent, ids, reviewer_ids, outcomes, final_decision}
use polder_research_pipeline.Method.Final.Adjudicated.{adjudicated_lem}
use polder_research_pipeline.Method.Reading.{candidate_at, frozen_for_run}
use polder_research_pipeline.Method.Screening.{
  Decision, is_stage, is_outcome, check_source, check_reason, is_about, new_screening, read_all,
  adjudication, adjudicate_screening,
}
use polder_research_pipeline.Method.Screening.Stored.{
  read_all-eq-ok, Appended, commit_screening-eq-ok,
}

unfoldable pub is_verdict : String → String → String → Screening → Bool
is_verdict run_id candidate_id stage d =
    (d.run_id == run_id && is_about candidate_id stage d) && d.decision_kind == "adjudication"

-- Each stage of a candidate has at most one adjudication.
abbrev pub VerdictOnce : List Screening → Type 0
VerdictOnce xs =
    (run_id candidate_id stage : String)
    → length (select (is_verdict run_id candidate_id stage) xs) ≤ 1

is_verdict-true :
    (run_id candidate_id stage : String) (d : Screening)
    → is_verdict run_id candidate_id stage d ≡ true
    → (d.run_id ≡ run_id)
      × (d.candidate_id ≡ candidate_id)
      × (d.stage ≡ stage)
      × (d.decision_kind ≡ "adjudication")
unfolding is_verdict
is_verdict-true run_id candidate_id stage d h = ground (
  arith,
  eq_iff d.run_id run_id,
  eq_iff d.candidate_id candidate_id,
  eq_iff d.stage stage,
  eq_iff d.decision_kind "adjudication",
)

-- the decisions on a stage of a candidate, as `adjudicate_screening` selects them
abbrev pub stage_of : String → Decision → List Screening → List Screening
stage_of run_id arg = select (λ d. d.run_id == run_id && is_about arg.candidate_id arg.stage d)

enough : (n m : ℕ) → (ltb n 2 || eqb m 1) ≡ false → (2 ≤ n) × (eqb m 1 ≡ false)
enough n m h = ground arith

module _ (checks : Checks) where
  -- What was checked for an adjudication that came through, and the record that is written for it.
  abbrev pub AdjudicatedOver :
      String → String → ℕ → Decision → Store → Screening → List Screening → Type 0
  AdjudicatedOver run_id id now arg s rec xs =
      (bound : Run × Protocol) × (frozen_for_run checks run_id true s ≡ ok bound)
      × (arg.reviewer_id ≡ bound.1.adjudicator)
      × (2 ≤ length (independent (stage_of run_id arg xs)))
      × (eqb (length (distinct (outcomes (independent (stage_of run_id arg xs))))) 1 ≡ false)
      × (any (λ d. d.decision_kind == "adjudication") (stage_of run_id arg xs) ≡ false)
      × (rec
          ≡ new_screening id run_id bound.1 "adjudication"
              (sorted (ids (independent (stage_of run_id arg xs)))) arg (at now))

  abbrev pub Adjudicated : String → String → ℕ → Decision → Store → Screening → Type 0
  Adjudicated run_id id now arg s rec =
      AdjudicatedOver run_id id now arg s rec (contents s.screenings)

  pub adjudication-Adjudicated :
      (run_id id : String) (now : ℕ) (arg : Decision) (s : Store) (rec : Screening)
      → adjudication checks run_id id now arg s ≡ ok rec
      → Adjudicated run_id id now arg s rec
  unfolding adjudication
  adjudication-Adjudicated run_id id now arg s rec h =
      after (frozen_for_run checks run_id true s) _ h λ bound frozen h1.
        passed (not (arg.reviewer_id == bound.1.adjudicator)) not_adjudicator _ h1 λ chosen h2.
          after (candidate_at checks arg.candidate_id s) _ h2 λ candidate there h3.
            passed (not (candidate.run_id == run_id) || not (candidate.status == "unique"))
              not_unique _ h3
              λ unique h4.
                passed (not (is_stage arg.stage) || not (is_outcome arg.outcome)) bad_outcome _ h4
                  λ _ h5. after (read_all s.screenings) _ h5 λ all_records found h6.
                    let same_records = read_all-eq-ok s.screenings all_records found in
                    passed
                      (ltb (length (independent (stage_of run_id arg all_records))) 2
                        || eqb
                            (length
                              (distinct (outcomes (independent (stage_of run_id arg all_records)))))
                            1)
                      no_disagreement _ h6
                      λ split h7.
                        passed
                          (any (λ d. d.decision_kind == "adjudication")
                            (stage_of run_id arg all_records))
                          already_adjudicated _ h7
                          λ unjudged h8. after (check_reason arg bound.1) _ h8 λ _ _ h9.
                            after
                              (check_source (arg.stage == "full_text" && arg.outcome == "include")
                                arg.source_id s)
                              _ h9
                              λ _ _ h10.
                                let (two, differ) = enough _ _ split in
                                subst (AdjudicatedOver run_id id now arg s rec) same_records (
                                  bound,
                                  frozen,
                                  ground (arith, eq_iff arg.reviewer_id bound.1.adjudicator),
                                  two,
                                  differ,
                                  unjudged,
                                  sym (ok_injective h10),
                                )

module _ (checks : Checks) where
  adjudicate_screening-Adjudicated :
      (run_id id id' : String) (now : ℕ) (arg : Decision) (s s' : Store)
      → read id s.screenings ≡ none
      → adjudicate_screening checks run_id id now arg s ≡ (ok id', s')
      → (rec : Screening) × Adjudicated checks run_id id now arg s rec × Appended rec s s'
  unfolding adjudicate_screening
  adjudicate_screening-Adjudicated run_id id id' now arg s s' fresh h =
      let (rec, e, stored) =
        commit_screening-eq-ok checks (adjudication checks run_id id now arg s) id' s s' h in
      let judged = adjudication-Adjudicated checks run_id id now arg s rec e in
      let (_, _, _, _, _, _, same) = judged in
      (rec, judged, stored (ap (λ r. read r.id s.screenings) same ∙ fresh))

  -- Right after a successful adjudication the final decision of the stage is the outcome that the
  -- adjudicator chose, if its independent decisions have different ids and are of at least two
  -- reviewers.
  pub adjudicate_screening-final_decision :
      (run_id id id' : String) (now : ℕ) (arg : Decision) (s s' : Store)
      → read id s.screenings ≡ none
      → 2
        ≤ length
            (distinct (reviewer_ids (independent (stage_of run_id arg (contents s.screenings)))))
      → length (distinct (ids (independent (stage_of run_id arg (contents s.screenings)))))
        ≡ length (independent (stage_of run_id arg (contents s.screenings)))
      → adjudicate_screening checks run_id id now arg s ≡ (ok id', s')
      → final_decision (stage_of run_id arg (contents s'.screenings)) ≡ some arg.outcome
  adjudicate_screening-final_decision run_id id id' now arg s s' fresh reviewers differ h =
      let (rec, (bound, _, _, two, split, unjudged, same), (more, _)) =
        adjudicate_screening-Adjudicated run_id id id' now arg s s' fresh h in
      let of_stage : (rec.run_id == run_id && is_about arg.candidate_id arg.stage rec) ≡ true =
        rw (same)
          (both _ _ (==_self run_id) (both _ _ (==_self arg.candidate_id) (==_self arg.stage))) in
      ap (λ xs. final_decision (stage_of run_id arg xs)) more
      ∙ ap final_decision (
          select-kept
            (λ (d : Screening). d.run_id == run_id && is_about arg.candidate_id arg.stage d)
            (contents s.screenings) rec of_stage)
      ∙ adjudicated_lem (stage_of run_id arg (contents s.screenings)) rec two reviewers split
          unjudged (ap (λ r. r.decision_kind) same) (ap (λ r. r.resolves_decision_ids) same) differ
      ∙ ap (λ r. some r.outcome) same

  -- Adjudicating under a fresh id keeps it that each stage of a candidate is adjudicated at most once.
  pub adjudicate_screening-VerdictOnce :
      (run_id id id' : String) (now : ℕ) (arg : Decision) (s s' : Store)
      → read id s.screenings ≡ none
      → adjudicate_screening checks run_id id now arg s ≡ (ok id', s')
      → VerdictOnce (contents s.screenings)
      → VerdictOnce (contents s'.screenings)
  unfolding is_verdict
  adjudicate_screening-VerdictOnce run_id id id' now arg s s' fresh h once run2 candidate2 stage2 =
      let (rec, (_, _, _, _, _, unjudged, same), (more, _)) =
        adjudicate_screening-Adjudicated run_id id id' now arg s s' fresh h in
      let first_verdict =
        any-select (λ d. d.run_id == run_id && is_about arg.candidate_id arg.stage d)
          (λ d. d.decision_kind == "adjudication") (is_verdict run_id arg.candidate_id arg.stage)
          (contents s.screenings) (λ d. refl) unjudged in
      subst (λ xs. length (select (is_verdict run2 candidate2 stage2) xs) ≤ 1) (sym more)
        (select_once (is_verdict run2 candidate2 stage2) (contents s.screenings) rec
          (once run2 candidate2 stage2)
          (λ e.
            let (a, b, c, _) = is_verdict-true run2 candidate2 stage2 rec e in
            rw
              (
                sym a ∙ ap (λ r. r.run_id) same,
                sym b ∙ ap (λ r. r.candidate_id) same,
                sym c ∙ ap (λ r. r.stage) same,
              )
              first_verdict))
