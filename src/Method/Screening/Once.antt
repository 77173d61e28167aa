-- ===== src/Method/Screening/Once.antt =====
-- Nobody decides a stage of a candidate twice.
use polder_research_pipeline.Base.{
  select_once, ℕ, String, ◌≡◌, ◌≤◌, refl, sym, ap, subst, ◌∙◌, Bool, true, false, ◌&&◌, List, [],
  none, ◌==◌, arith, eq_iff, select, any, length, any-select,
}
use polder_research_pipeline.Base.Result.{ok}
use polder_research_pipeline.Base.Dir.{read, contents}
use polder_research_pipeline.Method.Records.{Screening, Store, Checks}
use polder_research_pipeline.Method.Screening.{Decision, is_about, is_by, record_screening_decision}
use polder_research_pipeline.Method.Screening.Accepted.{record_screening_decision-Accepted}

-- an independent decision of this reviewer on this stage of the candidate
pub is_vote : String → String → String → String → Screening → Bool
is_vote run_id candidate_id stage reviewer_id d =
    d.run_id == run_id
    && (is_about candidate_id stage d
        && d.decision_kind == "independent"
        && d.reviewer_id == reviewer_id)

-- Each reviewer has at most one independent decision on a stage of a candidate.
abbrev pub VoteOnce : List Screening → Type 0
VoteOnce xs =
    (run_id candidate_id stage reviewer_id : String)
    → length (select (is_vote run_id candidate_id stage reviewer_id) xs) ≤ 1

is_vote-true :
    (run_id candidate_id stage reviewer_id : String) (d : Screening)
    → is_vote run_id candidate_id stage reviewer_id d ≡ true
    → (d.run_id ≡ run_id)
      × (d.candidate_id ≡ candidate_id)
      × (d.stage ≡ stage)
      × (d.reviewer_id ≡ reviewer_id)
      × (d.decision_kind ≡ "independent")
unfolding is_vote
is_vote-true run_id candidate_id stage reviewer_id d h = ground (
  arith,
  eq_iff d.run_id run_id,
  eq_iff d.candidate_id candidate_id,
  eq_iff d.stage stage,
  eq_iff d.reviewer_id reviewer_id,
  eq_iff d.decision_kind "independent",
)

module _ (checks : Checks) where
  no_vote_yet :
      (run_id : String) (arg : Decision) (s : Store)
      → any (is_by arg) (select (λ d. d.run_id == run_id) (contents s.screenings)) ≡ false
      → select (is_vote run_id arg.candidate_id arg.stage arg.reviewer_id) (contents s.screenings)
        ≡ []
  unfolding is_vote
  no_vote_yet run_id arg s h =
      any-select (λ d. d.run_id == run_id) (is_by arg)
        (is_vote run_id arg.candidate_id arg.stage arg.reviewer_id) (contents s.screenings)
        (λ d. refl) h

  -- Recording a decision under a fresh id keeps it that each reviewer has decided each stage of a
  -- candidate at most once.
  pub record_screening_decision-VoteOnce :
      (run_id id id' : String) (now : ℕ) (arg : Decision) (s s' : Store)
      → read id s.screenings ≡ none
      → record_screening_decision checks run_id id now arg s ≡ (ok id', s')
      → VoteOnce (contents s.screenings)
      → VoteOnce (contents s'.screenings)
  record_screening_decision-VoteOnce run_id id id' now arg s s' fresh h once run2 candidate2 stage2
        reviewer2 =
      let (rec, accepted, _, (more, _)) =
        record_screening_decision-Accepted checks run_id id id' now arg s s' fresh h in
      let same = accepted.same in
      let first_vote = no_vote_yet run_id arg s accepted.first_vote in
      subst (λ xs. length (select (is_vote run2 candidate2 stage2 reviewer2) xs) ≤ 1) (sym more)
        (select_once (is_vote run2 candidate2 stage2 reviewer2) (contents s.screenings) rec
          (once run2 candidate2 stage2 reviewer2)
          (λ e.
            let (a, b, c, d, _) = is_vote-true run2 candidate2 stage2 reviewer2 rec e in
            rw
              (
                sym a ∙ ap (λ r. r.run_id) same,
                sym b ∙ ap (λ r. r.candidate_id) same,
                sym c ∙ ap (λ r. r.stage) same,
                sym d ∙ ap (λ r. r.reviewer_id) same,
              )
              first_vote))
