-- ===== src/Classification/Tests.antt =====
-- The theorems on classifications and their reviews at a small taxonomy; scores are thousandths.
use polder_research_pipeline.Base.{
  ℕ, ◌-◌, ◌≤◌, ◌<◌, String, ◌≡◌, refl, Bool, true, false, if◌then◌else◌, ◌⊎◌, none, some, [], ◌∷◌,
  ◌++◌, ◌==◌, leb, all, length, select, is_record_id, strip, text_length, removeprefix, arith,
}
use polder_research_pipeline.Base.Sets.{All}
use polder_research_pipeline.Base.Result.{ok}
use polder_research_pipeline.Base.Dir.{Dir, parsed, read, write, write_atomic, contents}
use polder_research_pipeline.Base.Time.{at}
use polder_research_pipeline.Evidence.Records.{Source}
use polder_research_pipeline.Evidence.Enrich.{unclassified, policy_metadata, strictest, highest}
use polder_research_pipeline.Classification.Records.{
  Taxonomy, Config, Subject, Classification, text,
}
use polder_research_pipeline.Classification.Provider.{
  is_sensitive, value_at, select_provider, check_remote, chosen, admitted, check_questions,
}
use polder_research_pipeline.Classification.Answers.{
  field_decision, validated_choice, choice_decision, choice_answer, tag_decision, tag_decisions,
  dimension_decisions, category_decision, field_decisions,
}
use polder_research_pipeline.Classification.Attempts.{
  Reply, Setup, submitted, accepted_tags, is_settled, of_key, attempt_of, later, previous, stored,
  request, request_unlocked, lock_key, replied, decided, attempt_record, kept_or_new, attempted,
  proceed, classify_text,
}
use polder_research_pipeline.Classification.Attempts.Settled.{
  classify_text-classify_text, classify_text-attempt,
}
use polder_research_pipeline.Classification.Attempts.Reviewed.{is_proposal, classify_text-proposal}
use polder_research_pipeline.Classification.Hosted.{evidence_labels, classify_text-hosted}
use polder_research_pipeline.Classification.Review.{
  Review, Request, review_records, supersedes, validate_value, check_resolution, check_resolutions,
  overlapping, classification_at, check_superseded, review_record, stored_review, put_review,
  record_review,
}
use polder_research_pipeline.Classification.Review.Active.{record_review-superseded_once}
use polder_research_pipeline.Classification.Review.Exclusive.{record_review-exclusive}

program : Unit {0}
unfolding is_record_id strip text_length removeprefix read write write_atomic is_sensitive value_at
    select_provider check_remote chosen admitted check_questions field_decision validated_choice
    choice_decision choice_answer tag_decision tag_decisions dimension_decisions category_decision
    field_decisions submitted accepted_tags later previous stored request request_unlocked lock_key
    replied decided attempt_record kept_or_new attempted proceed classify_text policy_metadata
    strictest highest review_records validate_value check_resolution check_resolutions
    classification_at check_superseded review_record stored_review put_review record_review
program = tt

abbrev pub taxonomy : Taxonomy
taxonomy = record { categories = "energy" ∷ "health" ∷ []; tags = "policy" ∷ []; dimensions = [] }

abbrev pub config : String → Config ℕ
config provider = record {
  enabled = true;
  provider = provider;
  sensitive_provider = some "laya";
  by_target_kind = [];
  remote_allowed = true;
  jev_model = "jev-1.13.0";
  threshold = 750;
  taxonomy = taxonomy;
}

abbrev pub setup : String → Setup ℕ
setup provider = record {
  scores = record {
    leq = leb;
    rest = λ x. 1000 - x;
    is_probability = λ x. leb x 1000;
    is_close = λ xs. true;
  };
  config = config provider;
  taxonomy_sha256 = "t";
  fingerprint = λ subject labels p. subject.target_id;
  valid = λ _. true;
}

abbrev pub answers : Reply ℕ
answers = some (
    (
      "category",
      record {
        answer_type = some "choice";
        choice = some "energy";
        confidence = none;
        probabilities = some (("energy", 900) ∷ ("health", 100) ∷ []);
        noul = none;
      },
    )
    ∷ (
      "tag_policy",
      record {
        answer_type = some "noul";
        choice = none;
        confidence = none;
        probabilities = none;
        noul = some 800;
      },
    )
    ∷ [])

abbrev pub predict : String → Reply ℕ
predict provider = answers

abbrev silent : String → Reply ℕ
silent provider = if provider == "jev" then none else answers

abbrev pub subject : Subject
subject = record { target_kind = "claim"; target_id = "clm_1"; input_sha256 = "s" }

abbrev pub first_id : String
first_id = "cls_01890a5d-ac96-774b-bcce-b302099a8057"

abbrev pub laya : Setup ℕ
laya = setup "laya"

abbrev pub proposal : Classification ℕ
proposal =
    attempt_record laya first_id 4 "clm_1" subject "laya" none (decided laya predict none "laya")

abbrev pub stored_once : Dir (Classification ℕ)
stored_once = (first_id, parsed proposal) ∷ []

classify_text-classify_text_example :
    classify_text laya "cls_b" 9 silent none none subject none false stored_once
    ≡ (ok (some proposal), stored_once)
unfolding program
classify_text-classify_text_example =
    classify_text-classify_text laya first_id 4 predict none none subject none false [] stored_once
      proposal refl refl refl "cls_b" 9 silent none

classify_text-attempt_example :
    ((stored_once ≡ []) × (is_settled proposal ≡ true))
    ⊎ ((stored_once ≡ write first_id proposal [])
        × All
            (λ (r : Classification ℕ). attempt_of r < attempt_of proposal)
            (select (of_key proposal.record_key) (contents [])))
unfolding program
classify_text-attempt_example =
    classify_text-attempt laya first_id 4 predict none none subject none false [] stored_once
      proposal refl

classify_text-proposal_example :
    all is_proposal (
      contents
        (classify_text laya "cls_b" 9 predict none none
          (record subject { target_id = "clm_2" })
          none
          false
          stored_once).1)
    ≡ true
unfolding program
classify_text-proposal_example =
    classify_text-proposal laya "cls_b" 9 predict none none (record subject { target_id = "clm_2" })
      none false stored_once refl refl

-- a source for internal use only
abbrev internal : Source
internal = record {
  id = "src_1";
  source_status = some "current";
  acquisition_status = some "acquired";
  source_type = "article";
  media_type = "text";
  title = "Notes";
  discovered_at = none;
  retrieved_at = some (at 5);
  content_sha256 = none;
  doi = none;
  canonical_url = none;
  source_class = none;
  raw_location = none;
  byte_size = none;
  mime_type = none;
  sensitivity = some "internal";
  personal_data = false;
  remote_processing_allowed = true;
  tags = [];
  enrichment = unclassified;
}

only_jev : (p : String) → (p == "jev") ≡ false → predict p ≡ silent p
only_jev p other = ground (arith, other)

classify_text-hosted_example :
    classify_text
      (setup "jev")
      first_id
      4
      predict
      none
      none
      subject
      (some (evidence_labels (internal ∷ [])))
      false
      []
    ≡ classify_text
        (setup "jev")
        first_id
        4
        silent
        none
        none
        subject
        (some (evidence_labels (internal ∷ [])))
        false
        []
classify_text-hosted_example =
    classify_text-hosted (setup "jev") first_id 4 predict silent none none subject (internal ∷ [])
      false [] refl only_jev

abbrev accept : Request
accept = record {
  classification_id = first_id;
  reviewer = "ann";
  resolutions = ("category", record { action = "accept"; value = text "energy" }) ∷ [];
  reviewer_namespace = "local-user";
  reason = none;
  supersedes_review_id = none;
  policy_result_id = none;
  adjudicator = none;
}

abbrev edit : Request
edit = record accept {
  resolutions = ("category", record { action = "edit"; value = text "health" }) ∷ [];
  supersedes_review_id = some "crv_a";
}

abbrev pub any_record : Classification ℕ → Bool
any_record _ = true

abbrev any_review : Review → Bool
any_review _ = true

abbrev reviewed : Dir Review
reviewed = (record_review any_record any_review stored_once "crv_a" 5 accept []).1

abbrev pub second : Review
second = record {
  id = "crv_b";
  classification_id = first_id;
  record_key = "clm_1";
  target_kind = "claim";
  target_id = "clm_1";
  input_sha256 = "s";
  taxonomy_sha256 = "t";
  reviewer = "ann";
  reviewer_namespace = "local-user";
  status = some "active";
  resolutions = edit.resolutions;
  created_at = at 6;
  reason = none;
  supersedes_review_id = some "crv_a";
  policy_result_id = none;
  adjudicator = none;
}

none_superseded : (x : String) → length (select (supersedes x) (review_records any_review [])) ≤ 1
unfolding review_records
none_superseded x = omega arith

record_review-superseded_once_example :
    length (select (supersedes "crv_a") (review_records any_review reviewed)) ≤ 1
record_review-superseded_once_example =
    record_review-superseded_once any_record any_review stored_once "crv_a" 5 accept []
      (unfold read in refl) none_superseded "crv_a"

record_review-exclusive_example :
    (review_records any_review
        (record_review any_record any_review stored_once "crv_b" 6 edit reviewed).1
      ≡ review_records any_review reviewed ++ second ∷ [])
    × (overlapping first_id edit.resolutions (
          review_records any_review
            (record_review any_record any_review stored_once "crv_b" 6 edit reviewed).1)
        ≡ second ∷ [])
unfolding program
record_review-exclusive_example =
    record_review-exclusive any_record any_review stored_once "crv_b" 6 edit reviewed
      (record_review any_record any_review stored_once "crv_b" 6 edit reviewed).1 second refl refl
      (omega arith) refl
