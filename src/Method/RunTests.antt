-- ===== src/Method/RunTests.antt =====
-- The theorems on candidates, extractions, the flow, completion and runs at the sample review.
use polder_research_pipeline.Base.{
  String, ◌≡◌, refl, false, none, some, List, [], ◌∷◌, inl, ◌==◌, is_record_id, strip, length,
  select, arith,
}
use polder_research_pipeline.Base.Sets.{All}
use polder_research_pipeline.Base.Result.{ok}
use polder_research_pipeline.Base.Dir.{Dir, parsed, read, write_atomic}
use polder_research_pipeline.Base.Time.{at}
use polder_research_pipeline.Method.Records.{
  Run, Protocol, Search, Candidate, Screening, Extraction, Store,
}
use polder_research_pipeline.Method.Final.{
  final_decision, agreed, by_adjudication, final_extraction, extraction_by_adjudication,
}
use polder_research_pipeline.Method.Reading.{
  records, record_at, frozen_for_run, require_acquired_source, is_human, find_reviewer,
  assert_record_exists,
}
use polder_research_pipeline.Method.Collect.{
  Keys, Hit, register_candidate, candidate_record, commit_candidate, stored_candidates,
  candidates_of, dedupe_key, identifier_key, url_key,
}
use polder_research_pipeline.Method.Collect.Canonical.{
  is_canonical, key_of, CanonicalOnce, register_candidate-CanonicalOnce,
  register_candidate-canonical,
}
use polder_research_pipeline.Method.Extraction.{
  Reading, record_extraction, extraction_record, commit_extraction, check_candidate, check_included,
  check_value, check_segment, extractions_of,
}
use polder_research_pipeline.Method.Extraction.Support.{
  Supported, Says, Added, record_extraction-Supported,
}
use polder_research_pipeline.Method.Flow.{
  counted, flow_decision, count_final, count_fields, count_resolved, keys_of, unresolved,
  searches_of,
}
use polder_research_pipeline.Method.Flow.Counts.{flow_decision-final_decision}
use polder_research_pipeline.Method.Complete.{
  Review, binding_issue, query_issues, candidate_issues, reference_issues, reviewer_issue,
  count_issue, represented, occurrences, decision_issues, title_issues, find_query,
  extraction_reviewer_issue, extraction_issues, segment_issues, full_issues, included_issues,
  source_issues, field_issues, search_issues, appraisal_issues,
}
use polder_research_pipeline.Method.Complete.Issues.{
  record_issues, review_issues, review_of, appraisals_of, validate_run_for_completion,
}
use polder_research_pipeline.Method.Complete.Decided.{Decided, validate_run_for_completion-Decided}
use polder_research_pipeline.Runs.{
  parse_run, check_complete, check_ready, updated_run, commit_run, store_run, update_run_status,
}
use polder_research_pipeline.Runs.Completed.{update_run_status-Decided}
use polder_research_pipeline.Method.Samples.{
  active_run, run_id, protocol_id, candidate_id, checks, candidate, frozen_protocol, screening,
  active, vote_a,
}

program : Unit {0}
unfolding register_candidate candidate_record commit_candidate stored_candidates candidates_of
    dedupe_key identifier_key url_key record_extraction extraction_record commit_extraction
    check_candidate check_included check_value check_segment extractions_of counted flow_decision
    count_final count_fields count_resolved keys_of unresolved searches_of binding_issue
    query_issues candidate_issues reference_issues reviewer_issue count_issue represented
    occurrences decision_issues title_issues find_query extraction_reviewer_issue extraction_issues
    segment_issues full_issues included_issues source_issues field_issues search_issues
    appraisal_issues record_issues review_issues appraisals_of review_of validate_run_for_completion
    final_decision agreed by_adjudication final_extraction extraction_by_adjudication records
    record_at frozen_for_run require_acquired_source is_human find_reviewer assert_record_exists
    is_record_id strip read write_atomic
program = tt

abbrev search_id : String
search_id = "sea_01890a5d-ac96-774b-bcce-b302099a8057"

abbrev search : Search
search = record {
  id = search_id;
  run_id = run_id;
  protocol_id = protocol_id;
  protocol_sha256 = "q";
  query_id = "q1";
  database = "d";
  platform = "p";
  query = "x";
  executed_at = at 3;
  executed_by = "ann";
  result_count = 1;
  tool_name = "";
  tool_version = "";
  notes = "";
  parameters = record { date_from = none; date_to = none; language = none; limits = none };
  export_sha256 = some "e";
  export_location = some "l";
}

abbrev searched : Store
searched = record (active []) { searches = (search_id, parsed search) ∷ []; candidates = [] }

abbrev keys : Keys
keys = record {
  lower = λ t. t;
  without_doi = λ t. t;
  normalize_url = λ t. some t;
  collapse_casefold = λ t. t;
  id_digest = λ t. t;
  url_digest = λ t. t;
  title_digest = λ t. t;
}

abbrev hit : Hit
hit = record {
  search_id = search_id;
  title = "t";
  stable_identifiers = "doi" ∷ [];
  authors = [];
  published_at = "";
  url = none;
  abstract = "";
}

abbrev hit_candidate : Candidate
hit_candidate = record candidate {
  id = "can_1";
  search_ids = search_id ∷ [];
  stable_identifiers = "doi" ∷ [];
  dedupe_key = "doi";
  discovered_at = at 5;
}

no_candidates : CanonicalOnce []
no_candidates run key = omega arith

register_candidate-CanonicalOnce_example : CanonicalOnce (hit_candidate ∷ [])
unfolding program
register_candidate-CanonicalOnce_example =
    register_candidate-CanonicalOnce checks keys run_id "can_1" "can_1" 5 hit searched
      (record searched { candidates = ("can_1", parsed hit_candidate) ∷ [] }) refl refl
      no_candidates

register_candidate-canonical_example :
    length (select (is_canonical run_id (key_of keys hit)) (hit_candidate ∷ [])) ≡ 1
unfolding program
register_candidate-canonical_example =
    register_candidate-canonical checks keys run_id "can_1" "can_1" 5 hit searched
      (record searched { candidates = ("can_1", parsed hit_candidate) ∷ [] }) refl no_candidates
      refl

abbrev votes : List Screening
votes = vote_a ∷ screening "scr_b" "independent" "bob" "include" [] ∷ []

flow_decision-final_decision_example : flow_decision frozen_protocol votes ≡ some "include"
unfolding program
flow_decision-final_decision_example =
    flow_decision-final_decision frozen_protocol votes "include" refl (omega arith)

abbrev source_id : String
source_id = "src_01890a5d-ac96-774b-bcce-b302099a8057"

abbrev full_vote : String → String → Screening
full_vote id who = record (screening id "independent" who "include" []) {
  stage = "full_text";
  source_id = some source_id;
}

abbrev extraction : String → String → Extraction
extraction id who = record {
  id = id;
  run_id = run_id;
  protocol_id = protocol_id;
  protocol_sha256 = "q";
  candidate_id = candidate_id;
  source_id = source_id;
  reviewer_id = who;
  field = "n";
  status = "not_reported";
  rationale = "";
  record_kind = "independent";
  resolves_extraction_ids = [];
  recorded_at = at 6;
  value = none;
  segment_id = none;
}

-- a review that has been carried through, with these extractions
abbrev screened : Dir Extraction → Store
screened extractions =
    record (active (
      vote_a
      ∷ screening "scr_b" "independent" "bob" "include" []
      ∷ full_vote "scr_c" "ann"
      ∷ full_vote "scr_d" "bob"
      ∷ [])) {
        extractions = extractions;
        sources =
            (
              source_id,
              parsed (record {
                id = source_id;
                source_status = none;
                acquisition_status = some "acquired";
              }),
            )
            ∷ [];
      }

abbrev segment_id : String
segment_id = "seg_01890a5d-ac96-774b-bcce-b302099a8057"

-- the review with a segment of its source, too
abbrev with_segment : Dir Extraction → Store
with_segment extractions = record (screened extractions) {
  segments = (segment_id, parsed (record { id = segment_id; source_id = source_id })) ∷ [];
}

abbrev reported : Reading
reported = record {
  candidate_id = candidate_id;
  source_id = source_id;
  reviewer_id = "ann";
  field = "n";
  status = "reported";
  rationale = "";
  value = some "42";
  segment_id = some segment_id;
}

abbrev reported_extraction : Extraction
reported_extraction = record (extraction "ext_1" "ann") {
  status = "reported";
  value = some "42";
  segment_id = some segment_id;
}

record_extraction-Supported_example :
    (rec : Extraction) × Supported checks run_id rec (with_segment [])
    × Says run_id "ext_1" 6 "independent" reported rec
    × Added rec (with_segment []) (with_segment (("ext_1", parsed reported_extraction) ∷ []))
unfolding program
record_extraction-Supported_example =
    record_extraction-Supported checks "independent" run_id "ext_1" "ext_1" 6 reported
      (with_segment []) (with_segment (("ext_1", parsed reported_extraction) ∷ [])) refl
      (inl (refl, refl))

abbrev carried : Store
carried = screened (
    ("ext_1", parsed (extraction "ext_1" "ann"))
    ∷ ("ext_2", parsed (extraction "ext_2" "bob"))
    ∷ [])

validate_run_for_completion-Decided_example :
    (bound : Run × Protocol) × (r : Review) × (frozen_for_run checks run_id false carried
      ≡ ok bound)
    × (review_of checks run_id carried ≡ ok r)
    × All (λ c. (c.status == "duplicate") ≡ false → Decided bound.1 r c) r.candidates
unfolding program
validate_run_for_completion-Decided_example =
    validate_run_for_completion-Decided checks (λ _ _. ok tt) run_id carried refl

update_run_status-Decided_example :
    (bound : Run × Protocol) × (r : Review) × (frozen_for_run checks run_id false carried
      ≡ ok bound)
    × (review_of checks run_id carried ≡ ok r)
    × All (λ c. (c.status == "duplicate") ≡ false → Decided bound.1 r c) r.candidates
unfolding program parse_run check_complete check_ready updated_run commit_run store_run
    update_run_status
update_run_status-Decided_example =
    update_run_status-Decided checks (λ _ _. ok tt) false run_id 9 carried _ active_run refl refl
      refl
