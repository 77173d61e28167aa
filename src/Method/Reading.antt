-- ===== src/Method/Reading.antt =====
-- How research_methods/__init__.py reads its records, and `_frozen_for_run`.
pub mod Reads
pub mod Lists
use polder_research_pipeline.Base.{
  ℕ, String, Bool, true, false, not, ◌&&◌, ◌||◌, Option, none, some, List, [], ◌∷◌, ◌==◌,
  if◌then◌else◌, is_record_id,
}
use polder_research_pipeline.Base.Result.{Result, ok, raise, refuse, ◌>>=◌, ◌>>◌}
use polder_research_pipeline.Base.Dir.{File, damaged, parsed, Dir, read, write}
use polder_research_pipeline.Base.Time.{Stamp, at, naive, blank, garbled}
use polder_research_pipeline.Method.Records.{
  MethodError, bad_timestamp, bad_id, unreadable, invalid, identity_mismatch, not_systematic,
  not_active, no_protocol, protocol_reference, not_frozen, protocol_hash, source_missing,
  source_not_acquired, Run, Protocol, Reviewer, Candidate, Screening, Source, Segment, Store,
  Checks,
}

-- truth of an optional text: there, and not empty
abbrev pub is_set : Option String → Bool
is_set none = false
is_set (some t) = not (t == "")

-- an optional text and a text: `record.get(key) == value`
abbrev pub is_text : Option String → String → Bool
is_text none t = false
is_text (some v) t = v == t

abbrev pub set_only : Option String → Option String
set_only none = none
set_only (some t) = if t == "" then none else some t

-- `_require_timestamp`
unfoldable pub require_timestamp : Stamp → Result MethodError Unit
require_timestamp (at t) = ok tt
require_timestamp _ = raise bad_timestamp

-- `decided_at or _now()`
abbrev pub or_now : Option Stamp → ℕ → Stamp
or_now none now = at now
or_now (some blank) now = at now
or_now (some t) now = t

unfoldable pub is_human : Option Reviewer → Bool
is_human none = false
is_human (some reviewer) = reviewer.kind == "human"

-- `reviewers.get(reviewer_id)`: the last of the reviewers with the id, as a dict keeps it
unfoldable pub find_reviewer : String → List Reviewer → Option Reviewer
find_reviewer id [] = none
find_reviewer id (r ∷ rest) = elim (find_reviewer id rest) [
  | some later ↦ some later
  | none ↦ if r.id == id then some r else none
]

module _ {R : Type 0} (prefix : String) (valid : R → Bool) (id_of : R → String) where
  -- the file at a record's path
  pub checked : String → Option (File R) → Result MethodError R
  checked id none = raise unreadable
  checked id (some damaged) = raise unreadable
  checked id (some (parsed rec)) = do
    refuse (not (valid rec)) invalid
    refuse (not (id_of rec == id)) identity_mismatch
    ok rec

  -- `_require_id` and `_record`
  unfoldable pub record_at : String → Dir R → Result MethodError R
  unfolding checked read
  record_at id d = do refuse (not (is_record_id prefix id)) bad_id; checked id (read id d)

module _ {R : Type 0} (valid : R → Bool) (id_of : R → String) (run_of : R → String) where
  -- `_records`
  unfoldable pub records : String → Dir R → Result MethodError (List R)
  records run_id [] = ok []
  records run_id ((stem, damaged) ∷ d) = raise unreadable
  records run_id ((stem, parsed rec) ∷ d) = do
    refuse (not (id_of rec == stem)) identity_mismatch
    refuse (not (valid rec)) invalid
    rest ← records run_id d
    ok (if run_of rec == run_id then rec ∷ rest else rest)

-- `_protocol_content_hash`: the digest without the keys that freezing sets
abbrev pub content : Protocol → Protocol
content protocol = record protocol { status = ""; frozen_at = none; content_sha256 = none }

module _ (checks : Checks) where
  abbrev pub content_hash : Protocol → String
  content_hash protocol = checks.digest (content protocol)

  abbrev pub run_at : String → Store → Result MethodError Run
  run_at id s = record_at "run_" checks.run (λ r. r.id) id s.runs

  abbrev pub protocol_at : String → Store → Result MethodError Protocol
  protocol_at id s = record_at "prm_" checks.protocol (λ p. p.id) id s.protocols

  abbrev pub candidate_at : String → Store → Result MethodError Candidate
  candidate_at id s = record_at "can_" checks.candidate (λ c. c.id) id s.candidates

  abbrev pub screenings_of : String → Store → Result MethodError (List Screening)
  screenings_of run_id s = records checks.screening (λ d. d.id) (λ d. d.run_id) run_id s.screenings

  -- `run.get("protocol_id")`, where it counts
  pub bound_protocol : Option String → Result MethodError String
  bound_protocol none = raise no_protocol
  bound_protocol (some id) = if id == "" then raise no_protocol else ok id

  unfoldable pub frozen_for_run : String → Bool → Store → Result MethodError (Run × Protocol)
  unfolding bound_protocol
  frozen_for_run run_id require_active s = do
    run ← run_at run_id s
    refuse (not (is_text run.research_method "systematic_evidence_review")) not_systematic
    refuse (require_active && not (run.run_status == "active")) not_active
    protocol_id ← bound_protocol run.protocol_id
    protocol ← protocol_at protocol_id s
    refuse (not (protocol.id == protocol_id) || not (protocol.run_id == run_id)) protocol_reference
    refuse (not (protocol.status == "frozen")) not_frozen
    let digest = content_hash protocol
    refuse
        (not (is_text protocol.content_sha256 digest) || not (is_text run.protocol_sha256 digest))
        protocol_hash
    ok (run, protocol)

-- `source.get("acquisition_status", …) == "unacquired"`
abbrev pub is_unacquired : Source → Bool
is_unacquired source = elim source.acquisition_status [
  | some status ↦ status == "unacquired"
  | none ↦ is_text source.source_status "unacquired"
]

module _ {R : Type 0} (prefix : String) (id_of : R → String) where
  pub existing : String → Option (File R) → Result MethodError R
  existing id none = raise source_missing
  existing id (some damaged) = raise unreadable
  existing id (some (parsed rec)) = if id_of rec == id then ok rec else raise identity_mismatch

  -- `assert_record_exists` of evidence/__init__.py, under a literal prefix
  unfoldable pub assert_record_exists : String → Dir R → Result MethodError R
  unfolding existing read
  assert_record_exists id d = do
    refuse (not (is_record_id prefix id)) bad_id
    existing id (read id d)

abbrev pub source_at : String → Store → Result MethodError Source
source_at id s = assert_record_exists "src_" (λ r. r.id) id s.sources

abbrev pub segment_at : String → Store → Result MethodError Segment
segment_at id s = assert_record_exists "seg_" (λ r. r.id) id s.segments

unfoldable pub require_acquired_source : String → Store → Result MethodError Source
require_acquired_source id s = do
  source ← source_at id s
  refuse (is_unacquired source) source_not_acquired
  ok source
