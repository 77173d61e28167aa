-- ===== src/Classification/Records.antt =====
-- The configuration, the taxonomy and the records of classification/__init__.py. `S` are the scores,
-- floating-point numbers in the source.
use polder_research_pipeline.Base.{ℕ, String, Bool, true, false, not, Option, List, ◌==◌}
use polder_research_pipeline.Base.Time.{Stamp}

-- One constructor for each exception.
pub data ClassError : Type 0 where
  local_provider_required approval_required sensitive_data preflight_blocked model_not_pinned :
      ClassError
  unknown_provider bad_provider bad_threshold empty_dimension invalid : ClassError
  -- while the answers are read; these end in a failed record
  bad_probability missing_answer bad_type bad_choice keys_differ not_normalized not_maximal no_reply
        precomputed :
      ClassError

-- The comparison of scores, 1 - x, whether one is a probability, and whether some sum to 1 within
-- 0.01.
pub record Scores (S : Type 0) : Type 0 where
  pub leq : S → S → Bool
  pub rest : S → S
  pub is_probability : S → Bool
  pub is_close : List S → Bool

-- The keys of a taxonomy: categories, tags, and the values of each dimension.
pub record Taxonomy : Type 0 where
  pub categories : List String
  pub tags : List String
  pub dimensions : List (String × List String)

-- The labels that come with a text.
pub record Labels : Type 0 where
  pub sensitivity : Option String
  pub sensitive : Bool
  pub personal_data : Bool
  pub remote_processing_allowed : Bool

pub record Config (S : Type 0) : Type 0 where
  pub enabled : Bool
  pub provider : String
  pub sensitive_provider : Option String
  pub by_target_kind : List (String × String)
  pub remote_allowed : Bool
  pub jev_model : String
  pub threshold : S
  pub taxonomy : Taxonomy

-- a value of a decision: of a choice, or of a tag
pub data Value : Type 0 where
  null : Value
  text : String → Value
  flag : Bool → Value

abbrev pub same_value : Value → Value → Bool
same_value null null = true
same_value (text a) (text b) = a == b
same_value (flag true) (flag b) = b
same_value (flag false) (flag b) = not b
same_value _ _ = false

pub record FieldDecision (S : Type 0) : Type 0 where
  pub status : String
  pub value : Value
  pub probability : Option S
  pub provider_confidence : Option S

-- an answer of a provider to one question
pub record Answer (S : Type 0) : Type 0 where
  pub answer_type : Option String
  pub choice : Option String
  pub confidence : Option S
  pub probabilities : Option (List (String × S))
  pub noul : Option S

-- What is asked about: the target, and the digest of the clipped state.
pub record Subject : Type 0 where
  pub target_kind : String
  pub target_id : String
  pub input_sha256 : String

pub record Classification (S : Type 0) : Type 0 where
  pub id : String
  pub record_key : String
  pub attempt : Option ℕ
  pub retry_of : Option String
  pub subject : Subject
  pub taxonomy : Taxonomy
  pub taxonomy_sha256 : String
  pub provider : String
  pub category : Option String
  pub proposed_tags : List String
  pub field_decisions : List (String × FieldDecision S)
  pub threshold : S
  pub disposition : String
  pub error : Option ClassError
  pub created_at : Stamp
