-- ===== src/Method/Collect.antt =====
-- `record_search`, `_dedupe_key` and `register_candidate` of research_methods/__init__.py.
-- The proofs are in the modules below.
pub mod Canonical
use polder_research_pipeline.Base.{
  ℕ, String, Bool, true, false, not, ◌&&◌, ◌||◌, Option, none, some, List, [], ◌∷◌, ◌++◌, ltb, ◌==◌,
  is_some, if◌then◌else◌, strip, select, first,
}
use polder_research_pipeline.Base.Result.{Result, ok, raise, refuse, ◌>>=◌, ◌>>◌}
use polder_research_pipeline.Base.Exec.{Exec}
use polder_research_pipeline.Base.Dir.{Dir, write_atomic}
use polder_research_pipeline.Base.Time.{Stamp, at}
use polder_research_pipeline.Method.Records.{
  MethodError, export_unreadable, export_mismatch, unplanned_query, export_missing,
  export_incomplete, foreign_search, invalid, Protocol, Query, Search, Candidate, Store, Checks,
}
use polder_research_pipeline.Method.Reading.{
  is_text, record_at, records, frozen_for_run, require_timestamp, set_only,
}

-- What a search is recorded with. The result count is never below 0, by the schema.
pub record Execution : Type 0 where
  pub query_id : String
  pub executed_by : String
  pub executed_at : Stamp
  pub result_count : ℕ
  pub export_sha256 : Option String
  pub export_location : Option String
  pub tool_name : String
  pub tool_version : String
  pub notes : String

-- What a hit is registered with.
pub record Hit : Type 0 where
  pub search_id : String
  pub title : String
  pub stable_identifiers : List String
  pub authors : List String
  pub published_at : String
  pub url : Option String
  pub abstract : String

-- Python's text functions, `normalize_url` of urls.py and the digest, as they serve `_dedupe_key`.
pub record Keys : Type 0 where
  pub lower : String → String
  pub without_doi : String → String
  pub normalize_url : String → Option String
  pub collapse_casefold : String → String
  pub id_digest : String → String
  pub url_digest : String → String
  pub title_digest : String → String

module _ (keys : Keys) where
  -- the first identifier with something in it
  unfoldable pub identifier_key : List String → Option String
  identifier_key [] = none
  identifier_key (identifier ∷ rest) =
      let value = keys.lower (strip identifier) in
      let later = identifier_key rest in
      if value == "" then later else some (keys.id_digest (keys.without_doi value))

  unfoldable pub url_key : Option String → Option String
  url_key none = none
  url_key (some url) = if url == "" then none else elim (keys.normalize_url url) [
    | none ↦ none
    | some normalized ↦ if normalized == "" then none else some (keys.url_digest normalized)
  ]

  unfoldable pub dedupe_key : String → List String → Option String → String
  dedupe_key title identifiers url = elim (identifier_key identifiers) [
    | some key ↦ key
    | none ↦ elim (url_key url) [
      | some key ↦ key
      | none ↦ keys.title_digest (keys.collapse_casefold title)
    ]
  ]

unfoldable pub planned_query : Option Query → Result MethodError Query
planned_query none = raise unplanned_query
planned_query (some query) = ok query

-- `_export_path` and `_verify_export`: the path that a location stands for, if it is inside the
-- workspace, and the digest of the file there, if it can be read
unfoldable pub verify_export :
    (String → Option String) → (String → Option String) → String → String → Result MethodError Unit
verify_export resolve digest location expected = elim (resolve location) [
  | none ↦ raise export_unreadable
  | some path ↦ elim (digest path) [
    | none ↦ raise export_unreadable
    | some actual ↦ refuse (not (actual == expected)) export_mismatch
  ]
]

abbrev pub hash_of : Protocol → String
hash_of protocol = elim protocol.content_sha256 [ none ↦ "" | some h ↦ h ]

abbrev pub new_search : String → String → Protocol → Query → Execution → Search
new_search id run_id protocol planned arg = record {
  id = id;
  run_id = run_id;
  protocol_id = protocol.id;
  protocol_sha256 = hash_of protocol;
  query_id = arg.query_id;
  database = planned.database;
  platform = planned.platform;
  query = planned.query;
  executed_at = arg.executed_at;
  executed_by = arg.executed_by;
  result_count = arg.result_count;
  tool_name = arg.tool_name;
  tool_version = arg.tool_version;
  notes = arg.notes;
  parameters = planned.parameters;
  export_sha256 = arg.export_sha256;
  export_location = arg.export_location;
}

-- both are there and not empty, or the files are not looked at
unfoldable pub verified :
    (String → String → Result MethodError Unit)
    → Option String
    → Option String
    → Result MethodError Unit
verified verify (some location) (some hash) =
    if location == "" || hash == "" then ok tt else verify location hash
verified verify _ _ = ok tt

abbrev pub status_of : Option Candidate → String
status_of none = "unique"
status_of (some canonical) = "duplicate"

abbrev pub new_candidate :
    String → String → Protocol → ℕ → Hit → String → Option Candidate → Candidate
new_candidate id run_id protocol now hit key canonical = record {
  id = id;
  run_id = run_id;
  protocol_id = protocol.id;
  protocol_sha256 = hash_of protocol;
  search_ids = hit.search_id ∷ [];
  stable_identifiers = hit.stable_identifiers;
  title = hit.title;
  authors = hit.authors;
  published_at = hit.published_at;
  dedupe_key = key;
  status = status_of canonical;
  discovered_at = at now;
  url = set_only hit.url;
  abstract = set_only (some hit.abstract);
  duplicate_of = elim canonical [ none ↦ none | some c ↦ some c.id ];
}

-- `next(...)` over the candidates of the key: the unique one
abbrev pub canonical_of : String → List Candidate → Option Candidate
canonical_of key candidates =
    first (λ (c : Candidate). c.status == "unique")
      (select (λ (c : Candidate). c.dedupe_key == key) candidates)

unfoldable pub stored_searches :
    String → Store → Option (Dir Search) → Result MethodError String × Store
stored_searches id s none = (raise invalid, s)
stored_searches id s (some searches) = (ok id, record s { searches = searches })

unfoldable pub stored_candidates :
    String → Store → Option (Dir Candidate) → Result MethodError String × Store
stored_candidates id s none = (raise invalid, s)
stored_candidates id s (some candidates) = (ok id, record s { candidates = candidates })

module _ (checks : Checks) where
  -- the checks of `record_search`, and the record; `verify` is `_verify_export`, which reads files
  unfoldable pub search_record :
      (String → String → Result MethodError Unit)
      → String
      → String
      → Execution
      → Store
      → Result MethodError Search
  unfolding planned_query verified
  search_record verify run_id id arg s = do
    (_, protocol) ← frozen_for_run checks run_id true s
    planned ← planned_query (first (λ (q : Query). q.id == arg.query_id) protocol.queries)
    require_timestamp arg.executed_at
    refuse
        (ltb 0 arg.result_count
          && (not (is_some arg.export_sha256) || not (is_some arg.export_location)))
        export_missing
    refuse
        (not (is_some arg.export_sha256) && is_some arg.export_location
          || is_some arg.export_sha256 && not (is_some arg.export_location))
        export_incomplete
    verified verify arg.export_location arg.export_sha256
    ok (new_search id run_id protocol planned arg)

  unfoldable pub commit_search : Result MethodError Search → Exec MethodError Store String
  commit_search (raise e) s = (raise e, s)
  commit_search (ok rec) s =
      stored_searches rec.id s (write_atomic checks.search rec.id rec s.searches)

  -- `id` is the new uuid.
  unfoldable pub record_search :
      (String → String → Result MethodError Unit)
      → String
      → String
      → Execution
      → Exec MethodError Store String
  record_search verify run_id id arg s = commit_search (search_record verify run_id id arg s) s

  unfoldable pub candidates_of : String → Store → Result MethodError (List Candidate)
  candidates_of run_id s = records checks.candidate (λ c. c.id) (λ c. c.run_id) run_id s.candidates

  abbrev pub search_at : String → Store → Result MethodError Search
  search_at id s = record_at "sea_" checks.search (λ r. r.id) id s.searches

  -- the checks of `register_candidate`, and the record
  unfoldable pub candidate_record :
      Keys → String → String → ℕ → Hit → Store → Result MethodError Candidate
  candidate_record keys run_id id now hit s = do
    (_, protocol) ← frozen_for_run checks run_id true s
    search ← search_at hit.search_id s
    refuse (not (search.run_id == run_id) || not (search.protocol_sha256 == hash_of protocol))
        foreign_search
    candidates ← candidates_of run_id s
    let key = dedupe_key keys hit.title hit.stable_identifiers hit.url
    ok (new_candidate id run_id protocol now hit key (canonical_of key candidates))

  unfoldable pub commit_candidate : Result MethodError Candidate → Exec MethodError Store String
  commit_candidate (raise e) s = (raise e, s)
  commit_candidate (ok rec) s =
      stored_candidates rec.id s (write_atomic checks.candidate rec.id rec s.candidates)

  unfoldable pub register_candidate :
      Keys → String → String → ℕ → Hit → Exec MethodError Store String
  register_candidate keys run_id id now hit s =
      commit_candidate (candidate_record keys run_id id now hit s) s
