-- ===== src/Evidence/Records.antt =====
-- The records of evidence/__init__.py and the directories that hold them.
use polder_research_pipeline.Base.{ℕ, String, Bool, Option, List}
use polder_research_pipeline.Base.Dir.{Dir}
use polder_research_pipeline.Base.Time.{Stamp}

-- One constructor for each ValueError, for the exception of json, and for the SchemaError.
pub data EvidenceError : Type 0 where
  bad_id parent_missing unreadable parent_mismatch invalid : EvidenceError
  bad_sensitivity bad_source_status bad_acquisition_status : EvidenceError
  url_required content_not_allowed content_required bad_hash : EvidenceError
  already_acquired duplicate_content source_unacquired : EvidenceError
  no_sources bad_priority bad_gap_status too_few_claims claims_repeat : EvidenceError
  bad_relation bad_directness bad_confidence foreign_segment no_locator bad_scheme : EvidenceError

-- the three fields that `_classify_record` sets
pub record Enrichment : Type 0 where
  pub status : Option String
  pub error : Option String
  pub ids : List String

pub record Source : Type 0 where
  pub id : String
  pub source_status : Option String
  pub acquisition_status : Option String
  pub source_type : String
  pub media_type : String
  pub title : String
  pub discovered_at : Option Stamp
  pub retrieved_at : Option Stamp
  pub content_sha256 : Option String
  pub doi : Option String
  pub canonical_url : Option String
  pub source_class : Option String
  pub raw_location : Option String
  pub byte_size : Option ℕ
  pub mime_type : Option String
  pub sensitivity : Option String
  pub personal_data : Bool
  pub remote_processing_allowed : Bool
  pub tags : List String
  pub enrichment : Enrichment

-- A locator may come from outside, with any keys; these are the keys of a segment's.
pub record Locator : Type 0 where
  pub scheme : Option String
  pub value : Option String
  pub start : Option String
  pub end : Option String

pub record Segment : Type 0 where
  pub id : String
  pub source_id : String
  pub text : String
  pub locator : Locator
  pub extracted_at : Stamp
  pub enrichment : Enrichment

pub record Claim : Type 0 where
  pub id : String
  pub statement : String
  pub claim_status : String
  pub created_at : Stamp
  pub source_ids : List String
  pub claim_kind : Option String
  pub tags : List String
  pub enrichment : Enrichment

pub record Entity : Type 0 where
  pub id : String
  pub name : String
  pub entity_kind : String
  pub created_at : Stamp
  pub aliases : List String
  pub description : Option String
  pub tags : List String
  pub source_ids : List String
  pub enrichment : Enrichment

pub record Gap : Type 0 where
  pub id : String
  pub description : String
  pub priority : String
  pub status : String
  pub created_at : Stamp

pub record Conflict : Type 0 where
  pub id : String
  pub claim_ids : List String
  pub severity : String
  pub status : String
  pub created_at : Stamp

pub record Edge : Type 0 where
  pub id : String
  pub claim_id : String
  pub source_id : String
  pub relation : String
  pub directness : String
  pub confidence : String
  pub locator : Locator
  pub created_at : Stamp
  pub segment_id : Option String

pub record Store : Type 0 where
  pub sources : Dir Source
  pub segments : Dir Segment
  pub claims : Dir Claim
  pub entities : Dir Entity
  pub gaps : Dir Gap
  pub conflicts : Dir Conflict
  pub edges : Dir Edge

-- The JSON schemas, as their validators judge records of these types, and `normalize_url`.
pub record Checks : Type 0 where
  pub source : Source → Bool
  pub segment : Segment → Bool
  pub claim : Claim → Bool
  pub entity : Entity → Bool
  pub gap : Gap → Bool
  pub conflict : Conflict → Bool
  pub edge : Edge → Bool
  pub normalize_url : String → String
