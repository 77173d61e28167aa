-- ===== src/Method/Complete.antt =====
-- `validate_run_for_completion` of research_methods/__init__.py, but for the audit report: the
-- issues in the order in which they are found. The source sorts them and drops repetitions.
-- The proofs are in the modules below.
pub mod Issues
pub mod Decided
use polder_research_pipeline.Base.{
  ℕ, ◌+◌, String, Bool, true, false, not, ◌&&◌, ◌||◌, Option, none, some, List, [], ◌∷◌, ◌++◌, map,
  ltb, eqb, ◌==◌, is_some, if◌then◌else◌, length, select, any, all, first, last, contains,
}
use polder_research_pipeline.Base.Result.{Result, ok, raise, ◌>>=◌}
use polder_research_pipeline.Method.Records.{
  MethodError, Protocol, Query, Parameters, Reviewer, Search, Candidate, Screening, Appraisal,
  Extraction, Store, Checks,
}
use polder_research_pipeline.Method.Final.{final_decision, final_extraction, same_value}
use polder_research_pipeline.Method.Reading.{
  is_set, is_text, records, frozen_for_run, source_at, segment_at, is_human, find_reviewer,
  screenings_of,
}
use polder_research_pipeline.Method.Screening.{is_about}
use polder_research_pipeline.Method.Collect.{hash_of, candidates_of}
use polder_research_pipeline.Method.Extraction.{first_reviewer, extractions_of}
use polder_research_pipeline.Method.Flow.{keys_of, unresolved, searches_of}

-- One constructor for each message; the text is the id in it.
pub data Issue : Type 0 where
  unbound wrong_plan no_export bad_export foreign_search many_canonical bad_duplicate :
      String → Issue
  no_candidate bad_source outside_reviewer wrong_instrument outside_appraiser outside_extractor :
      String → Issue
  outside_field other_segment bad_segment not_represented title_open full_open no_source :
      String → Issue
  no_appraisal : String → Issue
  field_open other_source : String → String → Issue
  unexecuted unresolved_left : Issue

abbrev pub concat_map : {A : Type 0} → (A → List Issue) → List A → List Issue
concat_map f [] = []
concat_map f (x ∷ xs) = f x ++ concat_map f xs

abbrev pub issue_if : Bool → Issue → List Issue
issue_if true issue = issue ∷ []
issue_if false issue = []

-- a Result that is only asked whether it raises
abbrev pub raises : {A : Type 0} → Result MethodError A → Bool
raises (ok a) = false
raises (raise e) = true

unfoldable pub binding_issue : Protocol → String → String → String → List Issue
binding_issue protocol id protocol_id hash =
    issue_if (not (protocol_id == protocol.id) || not (hash == hash_of protocol)) (unbound id)

abbrev pub same_parameters : Parameters → Parameters → Bool
same_parameters p q =
    same_value p.date_from q.date_from
    && same_value p.date_to q.date_to
    && same_value p.language q.language
    && same_value p.limits q.limits

-- `planned_queries.get(...)`: the last query with the id
unfoldable pub find_query : String → List Query → Option Query
find_query id [] = none
find_query id (q ∷ rest) = elim (find_query id rest) [
  | some later ↦ some later
  | none ↦ if q.id == id then some q else none
]

abbrev pub is_planned : Search → Option Query → Bool
is_planned search none = false
is_planned search (some q) =
    search.database == q.database
    && search.platform == q.platform
    && search.query == q.query
    && same_parameters search.parameters q.parameters

unfoldable pub verified :
    (String → String → Result MethodError Unit)
    → Option String
    → Option String
    → Result MethodError Unit
verified verify (some location) (some hash) = verify location hash
verified verify _ _ = ok tt

-- `verify` is `_verify_export`, which reads files
unfoldable pub export_issues : (String → String → Result MethodError Unit) → Search → List Issue
export_issues verify search =
    let preserved = is_set search.export_location && is_set search.export_sha256 in
    if ltb 0 search.result_count && not preserved
    then no_export search.id ∷ []
    else issue_if
        (preserved && raises (verified verify search.export_location search.export_sha256))
        (bad_export search.id)

unfoldable pub search_issues :
    (String → String → Result MethodError Unit) → Protocol → Search → List Issue
search_issues verify protocol search =
    issue_if (not (is_planned search (find_query search.query_id protocol.queries)))
      (wrong_plan search.id)
    ++ export_issues verify search

-- `expected_queries - executed_queries`
unfoldable pub query_issues : Protocol → List Search → List Issue
query_issues protocol searches =
    issue_if
      (any (λ (q : Query). not (contains q.id (map (λ (s : Search). s.query_id) searches)))
        protocol.queries)
      unexecuted

-- `candidate_by_id.get(...)`
abbrev pub find_candidate : Option String → List Candidate → Option Candidate
find_candidate none cs = none
find_candidate (some id) cs = last (select (λ (c : Candidate). c.id == id) cs)

abbrev pub is_canonical_for : Candidate → Option Candidate → Bool
is_canonical_for c none = false
is_canonical_for c (some canonical) =
    canonical.status == "unique" && canonical.dedupe_key == c.dedupe_key

-- the loop over the candidates; `seen` are the keys of the unique ones so far
unfoldable pub candidate_issues :
    List String → List Candidate → List String → List Candidate → List Issue
candidate_issues search_ids all_candidates seen [] = []
candidate_issues search_ids all_candidates seen (c ∷ cs) =
    let seen' = if c.status == "unique" then c.dedupe_key ∷ seen else seen in
    let rest = candidate_issues search_ids all_candidates seen' cs in
    issue_if (any (λ id. not (contains id search_ids)) c.search_ids) (foreign_search c.id)
    ++ (if c.status == "unique"
        then issue_if (contains c.dedupe_key seen) (many_canonical c.dedupe_key)
        else issue_if (not (is_canonical_for c (find_candidate c.duplicate_of all_candidates)))
            (bad_duplicate c.id))
    ++ rest

unfoldable pub reference_issues : List String → Store → String → String → Option String → List Issue
reference_issues candidate_ids s id candidate_id source_id =
    issue_if (not (contains candidate_id candidate_ids)) (no_candidate id) ++ (elim source_id [
      | none ↦ []
      | some source ↦ issue_if (not (source == "") && raises (source_at source s)) (bad_source id)
    ])

unfoldable pub reviewer_issue : Protocol → Screening → List Issue
reviewer_issue protocol d =
    issue_if
      (not (
        if d.decision_kind == "adjudication"
        then d.reviewer_id == protocol.adjudicator
        else any (λ (r : Reviewer). r.kind == "human" && r.id == d.reviewer_id) protocol.reviewers))
      (outside_reviewer d.id)

unfoldable pub appraisal_issues : Protocol → Appraisal → List Issue
appraisal_issues protocol a =
    issue_if
      (not (a.instrument == protocol.instrument)
        || not (a.instrument_version == protocol.instrument_version))
      (wrong_instrument a.id)
    ++ issue_if (not (is_human (first_reviewer a.reviewer_id protocol))) (outside_appraiser a.id)

unfoldable pub extraction_reviewer_issue : Protocol → Extraction → List Issue
extraction_reviewer_issue protocol e =
    issue_if
      (not (
        if e.record_kind == "adjudication"
        then e.reviewer_id == protocol.adjudicator
        else is_human (first_reviewer e.reviewer_id protocol)))
      (outside_extractor e.id)

unfoldable pub segment_issues : Store → Extraction → List Issue
segment_issues s e = elim e.segment_id [
  | none ↦ []
  | some id ↦ if id == "" then [] else elim (segment_at id s) [
    | ok segment ↦ issue_if (not (segment.source_id == e.source_id)) (other_segment e.id)
    | raise _ ↦ bad_segment e.id ∷ []
  ]
]

unfoldable pub extraction_issues : Protocol → Store → Extraction → List Issue
extraction_issues protocol s e =
    issue_if (not (contains e.field protocol.fields)) (outside_field e.id) ++ segment_issues s e

-- how often the candidates name a search
unfoldable pub occurrences : String → List String → ℕ
occurrences id [] = 0
occurrences id (x ∷ xs) = let rest = occurrences id xs in if x == id then 1 + rest else rest

unfoldable pub represented : String → List Candidate → ℕ
represented id [] = 0
represented id (c ∷ cs) = occurrences id c.search_ids + represented id cs

unfoldable pub count_issue : List Candidate → Search → List Issue
count_issue candidates search =
    issue_if (not (eqb (represented search.id candidates) search.result_count))
      (not_represented search.id)

-- the source of the last full-text decision that names one
abbrev pub final_source : List Screening → Option String
final_source items = elim (last (select (λ (d : Screening). is_set d.source_id) items)) [
  | none ↦ none
  | some d ↦ d.source_id
]

unfoldable pub source_issues : Protocol → List Appraisal → String → Option String → List Issue
source_issues protocol appraisals id none = no_source id ∷ []
source_issues protocol appraisals id (some source) =
    issue_if
      (protocol.appraisal_required
        && not (any (λ (a : Appraisal). a.candidate_id == id && a.source_id == source) appraisals))
      (no_appraisal id)

unfoldable pub field_issues :
    Protocol → List Extraction → String → Option String → String → List Issue
field_issues protocol extractions id source field =
    let items = select (λ (e : Extraction). e.candidate_id == id && e.field == field) extractions in
    if is_some (final_extraction items protocol)
    then issue_if (any (λ (e : Extraction). not (is_text source e.source_id)) items)
        (other_source id field)
    else field_open id field ∷ []

-- what an included candidate still lacks
unfoldable pub included_issues :
    Protocol → List Screening → List Appraisal → List Extraction → String → List Issue
included_issues protocol full_items appraisals extractions id =
    let source = final_source full_items in
    source_issues protocol appraisals id source
    ++ concat_map (field_issues protocol extractions id source) protocol.fields

-- the stages of a unique candidate, from its final decisions
unfoldable pub full_issues :
    Protocol
    → List Screening
    → List Appraisal
    → List Extraction
    → String
    → Option String
    → List Issue
full_issues protocol full_items appraisals extractions id none = full_open id ∷ []
full_issues protocol full_items appraisals extractions id (some outcome) =
    if outcome == "include"
    then included_issues protocol full_items appraisals extractions id
    else []

unfoldable pub title_issues :
    Protocol
    → List Screening
    → List Appraisal
    → List Extraction
    → String
    → Option String
    → List Issue
title_issues protocol full_items appraisals extractions id none = title_open id ∷ []
title_issues protocol full_items appraisals extractions id (some outcome) =
    if outcome == "include"
    then full_issues protocol full_items appraisals extractions id (final_decision full_items)
    else []

unfoldable pub decision_issues :
    Protocol → List Screening → List Appraisal → List Extraction → Candidate → List Issue
decision_issues protocol screenings appraisals extractions c =
    if c.status == "duplicate"
    then []
    else title_issues protocol (select (is_about c.id "full_text") screenings) appraisals
        extractions c.id (final_decision (select (is_about c.id "title_abstract") screenings))

-- the records of a run
pub record Review : Type 0 where
  pub searches : List Search
  pub candidates : List Candidate
  pub screenings : List Screening
  pub appraisals : List Appraisal
  pub extractions : List Extraction
