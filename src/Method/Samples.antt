-- ===== src/Method/Samples.antt =====
-- A small review, as the data of the tests.
use polder_research_pipeline.Base.{
  String, true, false, Option, none, some, List, [], ◌∷◌, ◌==◌, if◌then◌else◌,
}
use polder_research_pipeline.Base.Dir.{Dir, parsed}
use polder_research_pipeline.Base.Time.{at}
use polder_research_pipeline.Method.Records.{
  Run, Reviewer, Protocol, Candidate, Screening, Store, Checks,
}
use polder_research_pipeline.Method.Screening.{Decision}

abbrev pub run_id : String
run_id = "run_01890a5d-ac96-774b-bcce-b302099a8057"

abbrev pub protocol_id : String
protocol_id = "prm_01890a5d-ac96-774b-bcce-b302099a8057"

abbrev pub candidate_id : String
candidate_id = "can_01890a5d-ac96-774b-bcce-b302099a8057"

abbrev pub checks : Checks
checks = record {
  run = λ _. true;
  protocol = λ _. true;
  search = λ _. true;
  candidate = λ _. true;
  screening = λ _. true;
  appraisal = λ _. true;
  extraction = λ _. true;
  digest = λ p. p.question;
}

abbrev pub draft_run : Run
draft_run = record {
  id = run_id;
  run_status = "draft";
  research_method = some "systematic_evidence_review";
  question = "q";
  protocol_id = none;
  protocol_sha256 = none;
  outputs = [];
  started_at = none;
  finished_at = none;
}

abbrev pub reviewer : String → String → Reviewer
reviewer id group = record { id = id; kind = "human"; independence_group = group }

abbrev pub draft_protocol : Protocol
draft_protocol = record {
  id = protocol_id;
  run_id = run_id;
  research_method = "systematic_evidence_review";
  status = "draft";
  question = "q";
  cutoff_at = at 1;
  queries = [];
  reviewers = reviewer "ann" "a" ∷ reviewer "bob" "b" ∷ [];
  adjudicator = "cy";
  exclusion_reasons = "off topic" ∷ [];
  fields = "n" ∷ [];
  appraisal_required = false;
  instrument = "i";
  instrument_version = "1";
  instrument_reference = "r";
  created_at = at 1;
  created_by = "ann";
  frozen_at = none;
  content_sha256 = none;
}

abbrev pub candidate : Candidate
candidate = record {
  id = candidate_id;
  run_id = run_id;
  protocol_id = protocol_id;
  protocol_sha256 = "q";
  search_ids = [];
  stable_identifiers = [];
  title = "t";
  authors = [];
  published_at = "";
  dedupe_key = "k";
  status = "unique";
  discovered_at = at 2;
  url = none;
  abstract = none;
  duplicate_of = none;
}

abbrev pub at_start : Store
at_start = record {
  runs = (run_id, parsed draft_run) ∷ [];
  protocols = (protocol_id, parsed draft_protocol) ∷ [];
  searches = [];
  candidates = (candidate_id, parsed candidate) ∷ [];
  screenings = [];
  appraisals = [];
  extractions = [];
  sources = [];
  segments = [];
}

abbrev pub frozen_protocol : Protocol
frozen_protocol = record draft_protocol {
  status = "frozen";
  frozen_at = some (at 3);
  content_sha256 = some "q";
}

abbrev pub active_run : Run
active_run = record draft_run {
  run_status = "active";
  protocol_id = some protocol_id;
  protocol_sha256 = some "q";
}

abbrev pub if_excluded : String → Option String
if_excluded outcome = if outcome == "exclude" then some "off topic" else none

abbrev pub files : List Screening → Dir Screening
files [] = []
files (d ∷ ds) = (d.id, parsed d) ∷ files ds

abbrev pub screening : String → String → String → String → List String → Screening
screening id kind who outcome resolves = record {
  id = id;
  run_id = run_id;
  protocol_id = protocol_id;
  protocol_sha256 = "q";
  candidate_id = candidate_id;
  stage = "title_abstract";
  decision_kind = kind;
  reviewer_id = who;
  outcome = outcome;
  rationale = "";
  resolves_decision_ids = resolves;
  decided_at = at 4;
  exclusion_reason = if_excluded outcome;
  source_id = none;
}

abbrev pub active : List Screening → Store
active screenings = record at_start {
  runs = (run_id, parsed active_run) ∷ [];
  protocols = (protocol_id, parsed frozen_protocol) ∷ [];
  screenings = files screenings;
}

abbrev pub vote_a : Screening
vote_a = screening "scr_a" "independent" "ann" "include" []

abbrev pub vote_b : Screening
vote_b = screening "scr_b" "independent" "bob" "exclude" []

abbrev pub verdict : Screening
verdict = screening "scr_c" "adjudication" "cy" "exclude" ("scr_a" ∷ "scr_b" ∷ [])

abbrev pub arg : String → String → Decision
arg who outcome = record {
  candidate_id = candidate_id;
  stage = "title_abstract";
  reviewer_id = who;
  outcome = outcome;
  rationale = "";
  exclusion_reason = if_excluded outcome;
  source_id = none;
  decided_at = none;
}
