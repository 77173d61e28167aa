-- ===== src/Method/Screening.antt =====
-- `record_screening_decision` and `adjudicate_screening` of research_methods/__init__.py.
-- The proofs are in the modules below.
pub mod Stored
pub mod Accepted
pub mod Once
pub mod Resolved
use polder_research_pipeline.Base.{
  ℕ, String, Bool, true, false, not, ◌&&◌, ◌||◌, Option, none, some, List, [], ◌∷◌, map, ltb, eqb,
  ◌==◌, if◌then◌else◌, is_record_id, length, select, any, first, contains, distinct, sorted,
}
use polder_research_pipeline.Base.Result.{Result, ok, raise, refuse, ◌>>=◌, ◌>>◌}
use polder_research_pipeline.Base.Exec.{Exec}
use polder_research_pipeline.Base.Dir.{Dir, write_atomic, File, damaged, parsed}
use polder_research_pipeline.Base.Time.{Stamp, at}
use polder_research_pipeline.Method.Records.{
  MethodError, bad_id, unreadable, invalid, bad_timestamp, not_unique, not_a_reviewer, bad_stage,
  bad_outcome, title_not_included, source_missing, reason_missing, reason_unplanned,
  already_screened, not_adjudicator, no_disagreement, already_adjudicated, Protocol, Reviewer,
  Candidate, Screening, Source, Store, Checks,
}
use polder_research_pipeline.Method.Final.{final_decision, outcomes, ids}
use polder_research_pipeline.Method.Reading.{
  is_set, is_text, record_at, records, frozen_for_run, source_at, require_acquired_source,
  candidate_at, screenings_of, set_only, require_timestamp, or_now, is_human, find_reviewer,
}

-- The arguments of both functions. `decided_at` is absent in an adjudication.
pub record Decision : Type 0 where
  pub candidate_id : String
  pub stage : String
  pub reviewer_id : String
  pub outcome : String
  pub rationale : String
  pub exclusion_reason : Option String
  pub source_id : Option String
  pub decided_at : Option Stamp

abbrev pub is_stage : String → Bool
is_stage stage = stage == "title_abstract" || stage == "full_text"

abbrev pub is_outcome : String → Bool
is_outcome outcome = outcome == "include" || outcome == "exclude" || outcome == "uncertain"

abbrev pub is_about : String → String → Screening → Bool
is_about candidate_id stage d = d.candidate_id == candidate_id && d.stage == stage

abbrev pub is_by : Decision → Screening → Bool
is_by arg d =
    is_about arg.candidate_id arg.stage d
    && d.decision_kind == "independent"
    && d.reviewer_id == arg.reviewer_id

-- the three statements on `source_id`: required, acquired, or at least there
unfoldable pub check_source : Bool → Option String → Store → Result MethodError Unit
check_source included none s = refuse included source_missing
check_source included (some id) s =
    if id == ""
    then refuse included source_missing
    else if included
    then (do source ← require_acquired_source id s; ok tt)
    else (do source ← source_at id s; ok tt)

unfoldable pub check_planned : Option String → Protocol → Result MethodError Unit
check_planned none protocol = ok tt
check_planned (some reason) protocol =
    refuse (not (reason == "") && not (contains reason protocol.exclusion_reasons)) reason_unplanned

unfoldable pub check_reason : Decision → Protocol → Result MethodError Unit
check_reason arg protocol = do
  refuse (arg.outcome == "exclude" && not (is_set arg.exclusion_reason)) reason_missing
  check_planned arg.exclusion_reason protocol

abbrev pub new_screening :
    String → String → Protocol → String → List String → Decision → Stamp → Screening
new_screening id run_id protocol kind resolves arg decided_at = record {
  id = id;
  run_id = run_id;
  protocol_id = protocol.id;
  protocol_sha256 = elim protocol.content_sha256 [ none ↦ "" | some h ↦ h ];
  candidate_id = arg.candidate_id;
  stage = arg.stage;
  decision_kind = kind;
  reviewer_id = arg.reviewer_id;
  outcome = arg.outcome;
  rationale = arg.rationale;
  resolves_decision_ids = resolves;
  decided_at = decided_at;
  exclusion_reason = set_only arg.exclusion_reason;
  source_id = set_only arg.source_id;
}

-- the files that `adjudicate_screening` reads without the checks of `_records`
unfoldable pub read_all : Dir Screening → Result MethodError (List Screening)
read_all [] = ok []
read_all ((_, damaged) ∷ d) = raise unreadable
read_all ((_, parsed rec) ∷ d) = do rest ← read_all d; ok (rec ∷ rest)

pub stored_screenings : String → Store → Option (Dir Screening) → Result MethodError String × Store
stored_screenings id s none = (raise invalid, s)
stored_screenings id s (some screenings) = (ok id, record s { screenings = screenings })

module _ (checks : Checks) where
  -- full-text screening wants a title/abstract inclusion
  unfoldable pub check_title : String → Decision → Store → Result MethodError Unit
  check_title run_id arg s =
      if arg.stage == "full_text"
      then (do
        prior ← screenings_of checks run_id s
        let title = select (is_about arg.candidate_id "title_abstract") prior
        refuse (not (is_text (final_decision title) "include")) title_not_included)
      else ok tt

  -- the checks of `record_screening_decision`, and the record that it writes
  unfoldable pub screening_decision :
      String → String → ℕ → Decision → Store → Result MethodError Screening
  screening_decision run_id id now arg s = do
    (_, protocol) ← frozen_for_run checks run_id true s
    candidate ← candidate_at checks arg.candidate_id s
    refuse (not (candidate.run_id == run_id) || not (candidate.status == "unique")) not_unique
    refuse (not (is_human (find_reviewer arg.reviewer_id protocol.reviewers))) not_a_reviewer
    refuse (not (is_stage arg.stage)) bad_stage
    refuse (not (is_outcome arg.outcome)) bad_outcome
    check_title run_id arg s
    check_source (arg.stage == "full_text" && arg.outcome == "include") arg.source_id s
    check_reason arg protocol
    require_timestamp (or_now arg.decided_at now)
    existing ← screenings_of checks run_id s
    refuse (any (is_by arg) existing) already_screened
    ok (new_screening id run_id protocol "independent" [] arg (or_now arg.decided_at now))

  -- the checks of `adjudicate_screening`, and the record that it writes
  unfoldable pub adjudication :
      String → String → ℕ → Decision → Store → Result MethodError Screening
  adjudication run_id id now arg s = do
    (_, protocol) ← frozen_for_run checks run_id true s
    refuse (not (arg.reviewer_id == protocol.adjudicator)) not_adjudicator
    candidate ← candidate_at checks arg.candidate_id s
    refuse (not (candidate.run_id == run_id) || not (candidate.status == "unique")) not_unique
    refuse (not (is_stage arg.stage) || not (is_outcome arg.outcome)) bad_outcome
    all_records ← read_all s.screenings
    let prior =
        select (λ d. d.run_id == run_id && is_about arg.candidate_id arg.stage d) all_records
    let decisions = select (λ d. d.decision_kind == "independent") prior
    refuse (ltb (length decisions) 2 || eqb (length (distinct (outcomes decisions))) 1)
        no_disagreement
    refuse (any (λ d. d.decision_kind == "adjudication") prior) already_adjudicated
    check_reason arg protocol
    check_source (arg.stage == "full_text" && arg.outcome == "include") arg.source_id s
    ok (new_screening id run_id protocol "adjudication" (sorted (ids decisions)) arg (at now))

  unfoldable pub store_screening : Screening → Exec MethodError Store String
  unfolding stored_screenings
  store_screening rec s =
      stored_screenings rec.id s (write_atomic checks.screening rec.id rec s.screenings)

  unfoldable pub commit_screening : Result MethodError Screening → Exec MethodError Store String
  commit_screening (raise e) s = (raise e, s)
  commit_screening (ok rec) s = store_screening rec s

  -- `id` is the new uuid.
  unfoldable pub record_screening_decision :
      String → String → ℕ → Decision → Exec MethodError Store String
  record_screening_decision run_id id now arg s =
      commit_screening (screening_decision run_id id now arg s) s

  unfoldable pub adjudicate_screening :
      String → String → ℕ → Decision → Exec MethodError Store String
  adjudicate_screening run_id id now arg s = commit_screening (adjudication run_id id now arg s) s
