-- ===== src/Classification/Review.antt =====
-- classification_review.py: reviews of classifications, which are only ever added.
use polder_research_pipeline.Base.{
  ℕ, String, Bool, true, false, not, ◌&&◌, ◌||◌, Option, none, some, List, [], ◌∷◌, ◌==◌, ltb,
  if◌then◌else◌, any, first, select, map, contains, strip, removeprefix, text_length, is_record_id,
  is_some,
}
use polder_research_pipeline.Base.Result.{Result, ok, raise, refuse, ◌>>=◌, ◌>>◌}
use polder_research_pipeline.Base.Exec.{Exec}
use polder_research_pipeline.Base.Dir.{File, damaged, parsed, Dir, read, write_atomic}
use polder_research_pipeline.Base.Time.{Stamp, at}
use polder_research_pipeline.Classification.Records.{
  Taxonomy, Value, null, text, flag, same_value, FieldDecision, Classification,
}
use polder_research_pipeline.Classification.Provider.{value_at, is_nil}
pub mod Active
pub mod Exclusive

-- One constructor for each ValueError, and `invalid` for the SchemaError.
pub data ReviewError : Type 0 where
  bad_reviewer nothing_resolved bad_id not_found other_identity bad_namespace bad_reason :
      ReviewError
  unknown_superseded inactive_superseded failed_classification unknown_field bad_action bad_value :
      ReviewError
  not_preserved bad_rejection unchanged conflicting invalid : ReviewError

pub record Resolution : Type 0 where
  pub action : String
  pub value : Value

pub record Review : Type 0 where
  pub id : String
  pub classification_id : String
  pub record_key : String
  pub target_kind : String
  pub target_id : String
  pub input_sha256 : String
  pub taxonomy_sha256 : String
  pub reviewer : String
  pub reviewer_namespace : String
  pub status : Option String
  pub resolutions : List (String × Resolution)
  pub created_at : Stamp
  pub reason : Option String
  pub supersedes_review_id : Option String
  pub policy_result_id : Option String
  pub adjudicator : Option String

-- the files whose records are valid and stand under their own id, in the order of their names
unfoldable pub review_records : (Review → Bool) → Dir Review → List Review
review_records valid [] = []
review_records valid ((k, damaged) ∷ d) = review_records valid d
review_records valid ((k, parsed rec) ∷ d) =
    let rest = review_records valid d in if valid rec && rec.id == k then rec ∷ rest else rest

abbrev pub supersedes : String → Review → Bool
supersedes id rec = elim rec.supersedes_review_id [ none ↦ false | some old ↦ old == id ]

-- `active_review_ids`, as a test on one review
abbrev pub is_active : List Review → Review → Bool
is_active records rec =
    (elim rec.status [ none ↦ true | some s ↦ s == "active" ])
    && not (any (supersedes rec.id) records)

-- whether the id is one of `active_review_ids(records)`
abbrev pub is_active_id : List Review → String → Bool
is_active_id records id = any (λ rec. rec.id == id && is_active records rec) records

-- the value is one that the taxonomy has for the field
unfoldable pub validate_value : String → Value → Taxonomy → Result ReviewError Unit
validate_value field value taxonomy =
    if field == "category"
    then choice value taxonomy.categories
    else elim (removeprefix "tag_" field) [
      | some tag ↦ refuse (not (contains tag taxonomy.tags && is_flag value)) bad_value
      | none ↦ elim (removeprefix "dimension_" field) [
        | some dimension ↦ choice value (values_of (value_at dimension taxonomy.dimensions))
        | none ↦ raise bad_value
      ]
    ]
  where
    is_flag : Value → Bool
    is_flag (flag b) = true
    is_flag null = false
    is_flag (text t) = false

    values_of : Option (List String) → List String
    values_of none = []
    values_of (some values) = values

    choice : Value → List String → Result ReviewError Unit
    choice null values = ok tt
    choice (text t) values = refuse (not (contains t values)) bad_value
    choice (flag b) values = raise bad_value

abbrev pub rejected : String → Value
rejected field = if is_some (removeprefix "tag_" field) then flag false else null

module _ {S : Type 0} where
  unfoldable pub check_resolution : Classification S → String → Resolution → Result ReviewError Unit
  check_resolution rec field resolution = elim (value_at field rec.field_decisions) [
    | none ↦ raise unknown_field
    | some decision ↦ (do
      refuse
          (not (resolution.action == "accept")
            && not (resolution.action == "reject")
            && not (resolution.action == "edit"))
          bad_action
      validate_value field resolution.value rec.taxonomy
      refuse (resolution.action == "accept" && not (same_value resolution.value decision.value))
          not_preserved
      refuse (resolution.action == "reject" && not (same_value resolution.value (rejected field)))
          bad_rejection
      refuse (resolution.action == "edit" && same_value resolution.value decision.value) unchanged)
  ]

  unfoldable pub check_resolutions :
      Classification S → List (String × Resolution) → Result ReviewError Unit
  check_resolutions rec [] = ok tt
  check_resolutions rec ((field, resolution) ∷ rest) = do
    check_resolution rec field resolution
    check_resolutions rec rest

  -- the classification under its id, judged by its schema
  unfoldable pub classification_at :
      (Classification S → Bool)
      → String
      → Dir (Classification S)
      → Result ReviewError (Classification S)
  classification_at valid id d = do refuse (not (is_record_id "cls_" id)) bad_id; found (read id d)
    where
      found : Option (File (Classification S)) → Result ReviewError (Classification S)
      found none = raise not_found
      found (some damaged) = raise not_found
      found (some (parsed rec)) = do
        refuse (not (rec.id == id)) other_identity
        refuse (not (valid rec)) invalid
        ok rec

  -- an active review of the same target, where one is superseded
  unfoldable pub check_superseded :
      Option String → Classification S → List Review → Result ReviewError Unit
  check_superseded none rec records = ok tt
  check_superseded (some id) rec records = elim (first (λ r. r.id == id) records) [
    | none ↦ raise unknown_superseded
    | some prior ↦ (do
      refuse (not (prior.target_id == rec.subject.target_id)) unknown_superseded
      refuse (not (is_active_id records id)) inactive_superseded)
  ]

-- the reviews resolve a common field
abbrev pub shares_field : List (String × Resolution) → List (String × Resolution) → Bool
shares_field xs ys = any (λ x. any (λ y. y.0 == x.0) ys) xs

-- the active reviews of the classification that resolve one of the fields
abbrev pub overlapping : String → List (String × Resolution) → List Review → List Review
overlapping classification_id resolutions records =
    select
      (λ prior.
        is_active_id records prior.id
        && prior.classification_id == classification_id
        && shares_field prior.resolutions resolutions)
      records

abbrev pub among : Option String → List Review → Bool
among none records = false
among (some id) records = any (λ prior. prior.id == id) records

pub record Request : Type 0 where
  pub classification_id : String
  pub reviewer : String
  pub resolutions : List (String × Resolution)
  pub reviewer_namespace : String
  pub reason : Option String
  pub supersedes_review_id : Option String
  pub policy_result_id : Option String
  pub adjudicator : Option String

abbrev pub is_long : ℕ → Option String → Bool
is_long limit none = false
is_long limit (some t) = ltb limit (text_length t)

module _ {S : Type 0} (valid_classification : Classification S → Bool) (valid : Review → Bool)
    (classifications : Dir (Classification S)) where
  -- the checks of `record_review`, and the record that it writes
  unfoldable pub review_record : String → ℕ → Request → Dir Review → Result ReviewError Review
  review_record id now arg d = do
    refuse (strip arg.reviewer == "" || ltb 120 (text_length (strip arg.reviewer))) bad_reviewer
    refuse (is_nil arg.resolutions) nothing_resolved
    rec ← classification_at valid_classification arg.classification_id classifications
    refuse (strip arg.reviewer_namespace == "" || ltb 80 (text_length arg.reviewer_namespace))
        bad_namespace
    refuse (is_long 500 arg.reason) bad_reason
    let records = review_records valid d
    check_superseded arg.supersedes_review_id rec records
    refuse (rec.disposition == "failed") failed_classification
    check_resolutions rec arg.resolutions
    let prior = overlapping arg.classification_id arg.resolutions records
    refuse (not (is_nil prior) && not (among arg.supersedes_review_id prior)) conflicting
    ok (record {
      id = id;
      classification_id = arg.classification_id;
      record_key = rec.record_key;
      target_kind = rec.subject.target_kind;
      target_id = rec.subject.target_id;
      input_sha256 = rec.subject.input_sha256;
      taxonomy_sha256 = rec.taxonomy_sha256;
      reviewer = strip arg.reviewer;
      reviewer_namespace = strip arg.reviewer_namespace;
      status = some "active";
      resolutions = arg.resolutions;
      created_at = at now;
      reason = arg.reason;
      supersedes_review_id = arg.supersedes_review_id;
      policy_result_id = arg.policy_result_id;
      adjudicator = arg.adjudicator;
    })

  unfoldable pub stored_review :
      Review → Dir Review → Option (Dir Review) → Result ReviewError Review × Dir Review
  stored_review rec d none = (raise invalid, d)
  stored_review rec d (some files) = (ok rec, files)

  unfoldable pub put_review : Result ReviewError Review → Exec ReviewError (Dir Review) Review
  put_review (raise e) d = (raise e, d)
  put_review (ok rec) d = stored_review rec d (write_atomic valid rec.id rec d)

  -- `id` is the new uuid.
  unfoldable pub record_review : String → ℕ → Request → Exec ReviewError (Dir Review) Review
  record_review id now arg d = put_review (review_record id now arg d) d
