-- ===== src/Method/Flow.antt =====
-- `screening_flow` of research_methods/__init__.py. The proofs are in the modules below.
pub mod Counts
use polder_research_pipeline.Base.{
  ℕ, ◌+◌, ◌*◌, String, Bool, true, false, not, ◌&&◌, ◌||◌, Option, none, some, List, [], ◌∷◌, map,
  ltb, eqb, ◌==◌, is_some, if◌then◌else◌, length, select, any, last, contains, distinct,
}
use polder_research_pipeline.Base.Result.{Result, ok, raise, ◌>>=◌}
use polder_research_pipeline.Method.Records.{
  MethodError, Protocol, Query, Search, Candidate, Screening, Extraction, Flow, Store, Checks,
}
use polder_research_pipeline.Method.Final.{
  independent, adjudications, reviewer_ids, outcomes, groups_of, final_extraction,
}
use polder_research_pipeline.Method.Reading.{
  is_text, records, frozen_for_run, candidate_at, screenings_of,
}
use polder_research_pipeline.Method.Screening.{is_about}
use polder_research_pipeline.Method.Collect.{candidates_of}
use polder_research_pipeline.Method.Extraction.{extractions_of}

-- the outcome of the last adjudication, where there is one
abbrev pub last_outcome : Option Screening → Option String
last_outcome none = none
last_outcome (some d) = some d.outcome

-- the first of the independent decisions
abbrev pub first_outcome : List Screening → Option String
first_outcome [] = none
first_outcome (d ∷ ds) = some d.outcome

-- `final[key]` for the decisions of a key; `none` counts as unresolved
unfoldable pub flow_decision : Protocol → List Screening → Option String
flow_decision protocol items =
    let decided = independent items in
    if ltb (length decided) 2
      || ltb (length (distinct (reviewer_ids decided))) 2
      || ltb (length (distinct (groups_of protocol.reviewers (reviewer_ids decided)))) 2
    then none
    else if eqb (length (distinct (outcomes decided))) 1
    then first_outcome decided
    else last_outcome (last (adjudications items))

-- the keys of `by_key`, each once
unfoldable pub keys_of : List Screening → List (String × String)
keys_of [] = []
keys_of (d ∷ ds) =
    let rest = keys_of ds in
    if any (is_about d.candidate_id d.stage) ds then rest else (d.candidate_id, d.stage) ∷ rest

unfoldable pub unresolved : Protocol → List Screening → List (String × String) → ℕ
unresolved protocol decisions [] = 0
unresolved protocol decisions ((candidate_id, stage) ∷ keys) =
    let rest = unresolved protocol decisions keys in
    if is_some (flow_decision protocol (select (is_about candidate_id stage) decisions))
    then rest
    else 1 + rest

-- `final.get((candidate_id, stage))`
abbrev pub final_of : Protocol → List Screening → String → String → Option String
final_of protocol decisions stage candidate_id =
    flow_decision protocol (select (is_about candidate_id stage) decisions)

abbrev pub with_status : String → List Candidate → List Candidate
with_status status = select (λ c. c.status == status)

-- `sum(... for c in unique)` of a test on the final outcome of a stage
unfoldable pub count_final :
    (Option String → Bool) → Protocol → List Screening → String → List Candidate → ℕ
count_final test protocol decisions stage [] = 0
count_final test protocol decisions stage (c ∷ cs) =
    let rest = count_final test protocol decisions stage cs in
    if test (final_of protocol decisions stage c.id) then 1 + rest else rest

abbrev pub is_outcome_of : String → Option String → Bool
is_outcome_of outcome o = is_text o outcome

unfoldable pub total_results : List Search → ℕ
total_results [] = 0
total_results (s ∷ rest) = s.result_count + total_results rest

-- the pairs of an included candidate and a field whose extraction is resolved
unfoldable pub count_fields : Protocol → List Extraction → String → List String → ℕ
count_fields protocol extractions candidate_id [] = 0
count_fields protocol extractions candidate_id (field ∷ fields) =
    let rest = count_fields protocol extractions candidate_id fields in
    let items =
      select (λ (e : Extraction). e.candidate_id == candidate_id && e.field == field) extractions in
    if is_some (final_extraction items protocol) then 1 + rest else rest

unfoldable pub count_resolved : Protocol → List Extraction → List String → ℕ
count_resolved protocol extractions [] = 0
count_resolved protocol extractions (id ∷ ids) =
    count_fields protocol extractions id protocol.fields + count_resolved protocol extractions ids

abbrev pub included_ids : Protocol → List Screening → List Candidate → List String
included_ids protocol decisions unique = distinct (
    map (λ (c : Candidate). c.id)
      (select (λ (c : Candidate). is_text (final_of protocol decisions "full_text" c.id) "include")
        unique))

unfoldable pub counted :
    Protocol → List Candidate → List Screening → List Search → List Extraction → Flow
counted protocol candidates decisions searches extractions =
    let unique = with_status "unique" candidates in
    let included = included_ids protocol decisions unique in
    record {
      records_identified = total_results searches;
      records_represented = length candidates;
      duplicates_removed = length (with_status "duplicate" candidates);
      records_screened = length unique;
      records_excluded_title_abstract =
          count_final (is_outcome_of "exclude") protocol decisions "title_abstract" unique;
      reports_sought =
          count_final (is_outcome_of "include") protocol decisions "title_abstract" unique;
      reports_assessed_full_text = count_final is_some protocol decisions "full_text" unique;
      reports_excluded_full_text =
          count_final (is_outcome_of "exclude") protocol decisions "full_text" unique;
      studies_included =
          count_final (is_outcome_of "include") protocol decisions "full_text" unique;
      unresolved_decisions = unresolved protocol decisions (keys_of decisions);
      extraction_fields_required = length included * length protocol.fields;
      extraction_fields_resolved = count_resolved protocol extractions included;
      required_queries = length protocol.queries;
      executed_queries = length (distinct (map (λ (s : Search). s.query_id) searches));
    }

module _ (checks : Checks) where
  unfoldable pub searches_of : String → Store → Result MethodError (List Search)
  searches_of run_id s = records checks.search (λ r. r.id) (λ r. r.run_id) run_id s.searches

  unfoldable pub screening_flow : String → Store → Result MethodError Flow
  screening_flow run_id s = do
    (_, protocol) ← frozen_for_run checks run_id false s
    candidates ← candidates_of checks run_id s
    decisions ← screenings_of checks run_id s
    searches ← searches_of run_id s
    extractions ← extractions_of checks run_id s
    ok (counted protocol candidates decisions searches extractions)
