-- ===== src/Method/Records.antt =====
-- The records of src/polder_research/research_methods/__init__.py and the directories that hold them.
-- A directory is the list of its files in name order. The ids are of `uuid.uuid7`, which grow, so a
-- new file stands last, and `sorted(directory.glob(...))` is the list as it stands.
use polder_research_pipeline.Base.{ℕ, String, Bool, Option, List}
use polder_research_pipeline.Base.Dir.{Dir}
use polder_research_pipeline.Base.Time.{Stamp}

-- One constructor for each message of a ResearchMethodError, and for what `assert_record_exists`
-- and the SchemaError of `write_atomic` say.
pub data MethodError : Type 0 where
  bad_id unreadable invalid identity_mismatch : MethodError
  bad_timestamp export_unreadable export_mismatch : MethodError
  not_systematic not_active no_protocol protocol_reference not_frozen protocol_hash : MethodError
  not_draft reviewers_repeat one_human_group dependent_adjudicator queries_repeat : MethodError
  question_differs protocol_modified : MethodError
  unplanned_query export_missing export_incomplete : MethodError
  foreign_search not_unique not_a_reviewer bad_stage bad_outcome title_not_included : MethodError
  source_missing source_not_acquired reason_missing reason_unplanned already_screened : MethodError
  not_adjudicator no_disagreement already_adjudicated : MethodError
  wrong_instrument not_included source_not_linked : MethodError
  unplanned_field bad_status value_missing foreign_segment already_extracted : MethodError
  not_independent incomplete not_created_as_draft : MethodError

pub record Run : Type 0 where
  pub id : String
  pub run_status : String
  pub research_method : Option String
  pub question : String
  pub protocol_id : Option String
  pub protocol_sha256 : Option String
  pub outputs : List String
  pub started_at : Option Stamp
  pub finished_at : Option Stamp

pub record Reviewer : Type 0 where
  pub id : String
  pub kind : String
  pub independence_group : String

-- the keys of a query that a search copies when they are there
pub record Parameters : Type 0 where
  pub date_from : Option String
  pub date_to : Option String
  pub language : Option String
  pub limits : Option String

pub record Query : Type 0 where
  pub id : String
  pub database : String
  pub platform : String
  pub query : String
  pub parameters : Parameters

-- The parts of a protocol that the code reads, with the plans laid flat.
pub record Protocol : Type 0 where
  pub id : String
  pub run_id : String
  pub research_method : String
  pub status : String
  pub question : String
  pub cutoff_at : Stamp
  pub queries : List Query
  pub reviewers : List Reviewer
  pub adjudicator : String
  pub exclusion_reasons : List String
  pub fields : List String
  pub appraisal_required : Bool
  pub instrument : String
  pub instrument_version : String
  pub instrument_reference : String
  pub created_at : Stamp
  pub created_by : String
  pub frozen_at : Option Stamp
  pub content_sha256 : Option String

pub record Search : Type 0 where
  pub id : String
  pub run_id : String
  pub protocol_id : String
  pub protocol_sha256 : String
  pub query_id : String
  pub database : String
  pub platform : String
  pub query : String
  pub executed_at : Stamp
  pub executed_by : String
  pub result_count : ℕ
  pub tool_name : String
  pub tool_version : String
  pub notes : String
  pub parameters : Parameters
  pub export_sha256 : Option String
  pub export_location : Option String

pub record Candidate : Type 0 where
  pub id : String
  pub run_id : String
  pub protocol_id : String
  pub protocol_sha256 : String
  pub search_ids : List String
  pub stable_identifiers : List String
  pub title : String
  pub authors : List String
  pub published_at : String
  pub dedupe_key : String
  pub status : String
  pub discovered_at : Stamp
  pub url : Option String
  pub abstract : Option String
  pub duplicate_of : Option String

pub record Screening : Type 0 where
  pub id : String
  pub run_id : String
  pub protocol_id : String
  pub protocol_sha256 : String
  pub candidate_id : String
  pub stage : String
  pub decision_kind : String
  pub reviewer_id : String
  pub outcome : String
  pub rationale : String
  pub resolves_decision_ids : List String
  pub decided_at : Stamp
  pub exclusion_reason : Option String
  pub source_id : Option String

pub record Appraisal : Type 0 where
  pub id : String
  pub run_id : String
  pub protocol_id : String
  pub protocol_sha256 : String
  pub candidate_id : String
  pub source_id : String
  pub reviewer_id : String
  pub instrument : String
  pub instrument_version : String
  pub instrument_reference : String
  pub overall_judgement : String
  pub limitations : List String
  pub completed_at : Stamp

pub record Extraction : Type 0 where
  pub id : String
  pub run_id : String
  pub protocol_id : String
  pub protocol_sha256 : String
  pub candidate_id : String
  pub source_id : String
  pub reviewer_id : String
  pub field : String
  pub status : String
  pub rationale : String
  pub record_kind : String
  pub resolves_extraction_ids : List String
  pub recorded_at : Stamp
  pub value : Option String
  pub segment_id : Option String

-- The evidence records that the review reads: whether a source is acquired, a segment's source.
pub record Source : Type 0 where
  pub id : String
  pub source_status : Option String
  pub acquisition_status : Option String

pub record Segment : Type 0 where
  pub id : String
  pub source_id : String

pub record Flow : Type 0 where
  pub records_identified : ℕ
  pub records_represented : ℕ
  pub duplicates_removed : ℕ
  pub records_screened : ℕ
  pub records_excluded_title_abstract : ℕ
  pub reports_sought : ℕ
  pub reports_assessed_full_text : ℕ
  pub reports_excluded_full_text : ℕ
  pub studies_included : ℕ
  pub unresolved_decisions : ℕ
  pub extraction_fields_required : ℕ
  pub extraction_fields_resolved : ℕ
  pub required_queries : ℕ
  pub executed_queries : ℕ

pub record Store : Type 0 where
  pub runs : Dir Run
  pub protocols : Dir Protocol
  pub searches : Dir Search
  pub candidates : Dir Candidate
  pub screenings : Dir Screening
  pub appraisals : Dir Appraisal
  pub extractions : Dir Extraction
  pub sources : Dir Source
  pub segments : Dir Segment

-- The JSON schemas, as their validators judge records of these types, and the digest of a
-- protocol's canonical JSON.
pub record Checks : Type 0 where
  pub run : Run → Bool
  pub protocol : Protocol → Bool
  pub search : Search → Bool
  pub candidate : Candidate → Bool
  pub screening : Screening → Bool
  pub appraisal : Appraisal → Bool
  pub extraction : Extraction → Bool
  pub digest : Protocol → String
