-- ===== src/Method/Complete/Issues.antt =====
-- The whole of `validate_run_for_completion`, but for the audit report.
use polder_research_pipeline.Base.{String, some, [], false, List, ◌++◌, map, ltb}
use polder_research_pipeline.Base.Result.{Result, ok, ◌>>=◌}
use polder_research_pipeline.Method.Records.{
  MethodError, Protocol, Search, Candidate, Screening, Appraisal, Extraction, Store, Checks,
}
use polder_research_pipeline.Method.Reading.{records, frozen_for_run, screenings_of}
use polder_research_pipeline.Method.Collect.{candidates_of}
use polder_research_pipeline.Method.Extraction.{extractions_of}
use polder_research_pipeline.Method.Flow.{keys_of, unresolved, searches_of}
use polder_research_pipeline.Method.Complete.{
  Issue, Review, unresolved_left, concat_map, issue_if, binding_issue, search_issues, query_issues,
  candidate_issues, reference_issues, reviewer_issue, appraisal_issues, extraction_reviewer_issue,
  extraction_issues, count_issue, decision_issues,
}

abbrev pub binding_issues : Protocol → Review → List Issue
binding_issues protocol r =
    concat_map (λ (x : Search). binding_issue protocol x.id x.protocol_id x.protocol_sha256)
      r.searches
    ++ concat_map (λ (x : Candidate). binding_issue protocol x.id x.protocol_id x.protocol_sha256)
        r.candidates
    ++ concat_map (λ (x : Screening). binding_issue protocol x.id x.protocol_id x.protocol_sha256)
        r.screenings
    ++ concat_map (λ (x : Appraisal). binding_issue protocol x.id x.protocol_id x.protocol_sha256)
        r.appraisals
    ++ concat_map (λ (x : Extraction). binding_issue protocol x.id x.protocol_id x.protocol_sha256)
        r.extractions

abbrev pub all_references : List String → Store → Review → List Issue
all_references ids s r =
    concat_map (λ (x : Screening). reference_issues ids s x.id x.candidate_id x.source_id)
      r.screenings
    ++ concat_map (λ (x : Appraisal). reference_issues ids s x.id x.candidate_id (some x.source_id))
        r.appraisals
    ++ concat_map
        (λ (x : Extraction). reference_issues ids s x.id x.candidate_id (some x.source_id))
        r.extractions

-- the issues of single records
unfoldable pub record_issues :
    (String → String → Result MethodError Unit) → Protocol → Store → Review → List Issue
record_issues verify protocol s r =
    binding_issues protocol r
    ++ concat_map (search_issues verify protocol) r.searches
    ++ query_issues protocol r.searches
    ++ candidate_issues (map (λ (x : Search). x.id) r.searches) r.candidates [] r.candidates
    ++ all_references (map (λ (c : Candidate). c.id) r.candidates) s r
    ++ concat_map (reviewer_issue protocol) r.screenings
    ++ concat_map (appraisal_issues protocol) r.appraisals
    ++ concat_map (extraction_reviewer_issue protocol) r.extractions
    ++ concat_map (extraction_issues protocol s) r.extractions
    ++ concat_map (count_issue r.candidates) r.searches

unfoldable pub review_issues :
    (String → String → Result MethodError Unit) → Protocol → Store → Review → List Issue
review_issues verify protocol s r =
    record_issues verify protocol s r
    ++ concat_map (decision_issues protocol r.screenings r.appraisals r.extractions) r.candidates
    ++ issue_if (ltb 0 (unresolved protocol r.screenings (keys_of r.screenings))) unresolved_left

module _ (checks : Checks) where
  unfoldable pub appraisals_of : String → Store → Result MethodError (List Appraisal)
  appraisals_of run_id s = records checks.appraisal (λ a. a.id) (λ a. a.run_id) run_id s.appraisals

  unfoldable pub review_of : String → Store → Result MethodError Review
  review_of run_id s = do
    searches ← searches_of checks run_id s
    candidates ← candidates_of checks run_id s
    screenings ← screenings_of checks run_id s
    appraisals ← appraisals_of run_id s
    extractions ← extractions_of checks run_id s
    ok (record {
      searches = searches;
      candidates = candidates;
      screenings = screenings;
      appraisals = appraisals;
      extractions = extractions;
    })

  unfoldable pub validate_run_for_completion :
      (String → String → Result MethodError Unit) → String → Store → Result MethodError (List Issue)
  validate_run_for_completion verify run_id s = do
    (_, protocol) ← frozen_for_run checks run_id false s
    r ← review_of run_id s
    ok (review_issues verify protocol s r)
