-- ===== src/Method/Extraction.antt =====
-- `record_appraisal`, `record_extraction` and `adjudicate_extraction` of
-- research_methods/__init__.py. The proofs are in the modules below.
pub mod Support
use polder_research_pipeline.Base.{
  ℕ, String, Bool, true, false, not, ◌&&◌, ◌||◌, Option, none, some, List, [], ◌∷◌, map, ltb, eqb,
  ◌==◌, is_some, if◌then◌else◌, length, select, any, all, first, contains, distinct, sorted,
}
use polder_research_pipeline.Base.Result.{Result, ok, raise, refuse, ◌>>=◌, ◌>>◌}
use polder_research_pipeline.Base.Exec.{Exec}
use polder_research_pipeline.Base.Dir.{Dir, write_atomic}
use polder_research_pipeline.Base.Time.{Stamp, at}
use polder_research_pipeline.Method.Records.{
  MethodError, not_unique, not_a_reviewer, wrong_instrument, not_included, source_not_linked,
  unplanned_field, bad_status, value_missing, foreign_segment, already_extracted, not_adjudicator,
  already_adjudicated, no_disagreement, not_independent, invalid, Protocol, Reviewer, Candidate,
  Screening, Appraisal, Extraction, Segment, Store, Checks,
}
use polder_research_pipeline.Method.Final.{
  final_decision, extracted, groups_of, extraction_ids, unanimous,
}
use polder_research_pipeline.Method.Reading.{
  is_set, is_text, records, frozen_for_run, require_acquired_source, set_only, is_human,
  candidate_at, screenings_of, segment_at,
}

-- The arguments of `record_appraisal`, without the free text of the domains.
pub record Judgement : Type 0 where
  pub candidate_id : String
  pub source_id : String
  pub reviewer_id : String
  pub instrument : String
  pub overall_judgement : String
  pub limitations : List String

-- The arguments of both extraction functions.
pub record Reading : Type 0 where
  pub candidate_id : String
  pub source_id : String
  pub reviewer_id : String
  pub field : String
  pub status : String
  pub rationale : String
  pub value : Option String
  pub segment_id : Option String

abbrev pub hash_of : Protocol → String
hash_of protocol = elim protocol.content_sha256 [ none ↦ "" | some h ↦ h ]

-- `next(r for r in reviewers if r["id"] == reviewer_id)`
abbrev pub first_reviewer : String → Protocol → Option Reviewer
first_reviewer id protocol = first (λ (r : Reviewer). r.id == id) protocol.reviewers

abbrev pub full_text_of : String → List Screening → List Screening
full_text_of candidate_id = select (λ d. d.candidate_id == candidate_id && d.stage == "full_text")

abbrev pub names_source : String → List Screening → Bool
names_source source_id = any (λ d. is_text d.source_id source_id)

abbrev pub new_appraisal : String → String → Protocol → ℕ → Judgement → Appraisal
new_appraisal id run_id protocol now arg = record {
  id = id;
  run_id = run_id;
  protocol_id = protocol.id;
  protocol_sha256 = hash_of protocol;
  candidate_id = arg.candidate_id;
  source_id = arg.source_id;
  reviewer_id = arg.reviewer_id;
  instrument = arg.instrument;
  instrument_version = protocol.instrument_version;
  instrument_reference = protocol.instrument_reference;
  overall_judgement = arg.overall_judgement;
  limitations = arg.limitations;
  completed_at = at now;
}

abbrev pub new_extraction :
    String → String → Protocol → ℕ → String → List String → Reading → Extraction
new_extraction id run_id protocol now kind resolves arg = record {
  id = id;
  run_id = run_id;
  protocol_id = protocol.id;
  protocol_sha256 = hash_of protocol;
  candidate_id = arg.candidate_id;
  source_id = arg.source_id;
  reviewer_id = arg.reviewer_id;
  field = arg.field;
  status = arg.status;
  rationale = arg.rationale;
  record_kind = kind;
  resolves_extraction_ids = resolves;
  recorded_at = at now;
  value = arg.value;
  segment_id = set_only arg.segment_id;
}

abbrev pub is_status : String → Bool
is_status status = status == "reported" || status == "not_reported" || status == "unclear"

abbrev pub is_on : Reading → Extraction → Bool
is_on arg e = e.candidate_id == arg.candidate_id && e.field == arg.field

abbrev pub is_extracted_by : Reading → Extraction → Bool
is_extracted_by arg e =
    is_on arg e && e.reviewer_id == arg.reviewer_id && e.record_kind == "independent"

-- a segment, where one is named, is of the source
unfoldable pub check_segment : Option String → String → Store → Result MethodError Unit
check_segment none source_id s = ok tt
check_segment (some id) source_id s = if id == "" then ok tt else (do
  segment ← segment_at id s
  refuse (not (segment.source_id == source_id)) foreign_segment)

-- the status, and what a reported value needs
unfoldable pub check_value : Reading → Store → Result MethodError Unit
check_value arg s = do
  refuse (not (is_status arg.status)) bad_status
  refuse (arg.status == "reported" && (not (is_set arg.value) || not (is_set arg.segment_id)))
      value_missing
  check_segment arg.segment_id arg.source_id s

unfoldable pub stored_appraisals :
    String → Store → Option (Dir Appraisal) → Result MethodError String × Store
stored_appraisals id s none = (raise invalid, s)
stored_appraisals id s (some appraisals) = (ok id, record s { appraisals = appraisals })

unfoldable pub stored_extractions :
    String → Store → Option (Dir Extraction) → Result MethodError String × Store
stored_extractions id s none = (raise invalid, s)
stored_extractions id s (some extractions) = (ok id, record s { extractions = extractions })

module _ (checks : Checks) where
  -- the candidate is a unique one of the run
  unfoldable pub check_candidate : String → String → Store → Result MethodError Unit
  check_candidate run_id candidate_id s = do
    candidate ← candidate_at checks candidate_id s
    refuse (not (candidate.run_id == run_id) || not (candidate.status == "unique")) not_unique

  -- the full text was included with this source
  unfoldable pub check_included : String → String → String → Store → Result MethodError Unit
  check_included run_id candidate_id source_id s = do
    screenings ← screenings_of checks run_id s
    let full_text = full_text_of candidate_id screenings
    refuse
        (not (is_text (final_decision full_text) "include")
          || not (names_source source_id full_text))
        not_included

  unfoldable pub appraisal_record :
      String → String → ℕ → Judgement → Store → Result MethodError Appraisal
  appraisal_record run_id id now arg s = do
    (_, protocol) ← frozen_for_run checks run_id true s
    check_candidate run_id arg.candidate_id s
    source ← require_acquired_source arg.source_id s
    refuse (not (arg.instrument == protocol.instrument)) wrong_instrument
    refuse (not (is_human (first_reviewer arg.reviewer_id protocol))) not_a_reviewer
    screenings ← screenings_of checks run_id s
    let full_text = full_text_of arg.candidate_id screenings
    refuse (not (is_text (final_decision full_text) "include")) not_included
    refuse (not (names_source arg.source_id full_text)) source_not_linked
    ok (new_appraisal id run_id protocol now arg)

  unfoldable pub commit_appraisal : Result MethodError Appraisal → Exec MethodError Store String
  commit_appraisal (raise e) s = (raise e, s)
  commit_appraisal (ok rec) s =
      stored_appraisals rec.id s (write_atomic checks.appraisal rec.id rec s.appraisals)

  -- `id` is the new uuid.
  unfoldable pub record_appraisal : String → String → ℕ → Judgement → Exec MethodError Store String
  record_appraisal run_id id now arg s = commit_appraisal (appraisal_record run_id id now arg s) s

  unfoldable pub extractions_of : String → Store → Result MethodError (List Extraction)
  extractions_of run_id s =
      records checks.extraction (λ e. e.id) (λ e. e.run_id) run_id s.extractions

  unfoldable pub extraction_record :
      String → String → ℕ → Reading → Store → Result MethodError Extraction
  extraction_record run_id id now arg s = do
    (_, protocol) ← frozen_for_run checks run_id true s
    check_candidate run_id arg.candidate_id s
    refuse (not (contains arg.field protocol.fields)) unplanned_field
    refuse (not (is_human (first_reviewer arg.reviewer_id protocol))) not_a_reviewer
    source ← require_acquired_source arg.source_id s
    check_included run_id arg.candidate_id arg.source_id s
    check_value arg s
    existing ← extractions_of run_id s
    refuse (any (is_extracted_by arg) existing) already_extracted
    ok (new_extraction id run_id protocol now "independent" [] arg)

  unfoldable pub extraction_verdict :
      String → String → ℕ → Reading → Store → Result MethodError Extraction
  extraction_verdict run_id id now arg s = do
    (_, protocol) ← frozen_for_run checks run_id true s
    refuse (not (arg.reviewer_id == protocol.adjudicator)) not_adjudicator
    check_candidate run_id arg.candidate_id s
    refuse (not (contains arg.field protocol.fields)) unplanned_field
    source ← require_acquired_source arg.source_id s
    all_records ← extractions_of run_id s
    let existing = select (is_on arg) all_records
    refuse (any (λ e. e.record_kind == "adjudication") existing) already_adjudicated
    let decided = extracted "independent" existing
    let reviewers = map (λ (e : Extraction). e.reviewer_id) decided
    refuse (ltb (length decided) 2 || ltb (length (distinct reviewers)) 2) not_independent
    refuse (ltb (length (distinct (groups_of protocol.reviewers reviewers))) 2) not_independent
    refuse (unanimous decided) no_disagreement
    check_value arg s
    check_included run_id arg.candidate_id arg.source_id s
    ok (new_extraction id run_id protocol now "adjudication" (sorted (extraction_ids decided)) arg)

  unfoldable pub commit_extraction : Result MethodError Extraction → Exec MethodError Store String
  unfolding stored_extractions
  commit_extraction (raise e) s = (raise e, s)
  commit_extraction (ok rec) s =
      stored_extractions rec.id s (write_atomic checks.extraction rec.id rec s.extractions)

  unfoldable pub record_extraction : String → String → ℕ → Reading → Exec MethodError Store String
  record_extraction run_id id now arg s =
      commit_extraction (extraction_record run_id id now arg s) s

  unfoldable pub adjudicate_extraction :
      String → String → ℕ → Reading → Exec MethodError Store String
  adjudicate_extraction run_id id now arg s =
      commit_extraction (extraction_verdict run_id id now arg s) s
