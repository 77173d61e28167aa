-- ===== src/Method/Protocol.antt =====
-- `create_protocol` and `freeze_protocol` of research_methods/__init__.py.
-- The proofs are in the modules below.
pub mod Steps
pub mod Binding
use polder_research_pipeline.Base.{
  ℕ, String, Bool, true, not, ◌&&◌, ◌||◌, Option, none, some, List, [], ◌∷◌, map, ltb, eqb, ◌==◌,
  if◌then◌else◌, strip, length, select, contains, distinct,
}
use polder_research_pipeline.Base.Result.{Result, ok, raise, refuse, ◌>>=◌, ◌>>◌}
use polder_research_pipeline.Base.Exec.{Exec, continue}
use polder_research_pipeline.Base.Dir.{Dir, write_atomic}
use polder_research_pipeline.Base.Time.{at}
use polder_research_pipeline.Method.Records.{
  MethodError, invalid, not_systematic, not_draft, reviewers_repeat, one_human_group,
  dependent_adjudicator, queries_repeat, question_differs, protocol_modified, Run, Reviewer, Query,
  Protocol, Store, Checks,
}
use polder_research_pipeline.Method.Reading.{
  is_set, is_text, content_hash, run_at, protocol_at, require_timestamp,
}

-- what the run, the clock and the caller add to the given protocol
abbrev pub new_protocol : String → String → ℕ → String → Protocol → Protocol
new_protocol id run_id now created_by given = record given {
  id = id;
  run_id = run_id;
  research_method = "systematic_evidence_review";
  status = "draft";
  created_at = at now;
  created_by = created_by;
}

-- `len(xs) == len(set(xs))`
abbrev pub all_differ : List String → Bool
all_differ xs = eqb (length xs) (length (distinct xs))

abbrev pub reviewer_names : Protocol → List String
reviewer_names protocol = map (λ (r : Reviewer). r.id) protocol.reviewers

abbrev pub human_groups : Protocol → List String
human_groups protocol =
    map (λ (r : Reviewer). r.independence_group)
      (select (λ (r : Reviewer). r.kind == "human") protocol.reviewers)

abbrev pub query_ids : Protocol → List String
query_ids protocol = map (λ (q : Query). q.id) protocol.queries

-- the checks of `create_protocol` on the record alone
pub check_plan : Protocol → Result MethodError Unit
check_plan protocol = do
  require_timestamp protocol.cutoff_at
  refuse (not (all_differ (reviewer_names protocol))) reviewers_repeat
  refuse (ltb (length (distinct (human_groups protocol))) 2) one_human_group
  refuse (contains protocol.adjudicator (reviewer_names protocol)) dependent_adjudicator
  refuse (not (all_differ (query_ids protocol))) queries_repeat

stored_protocols : Store → Option (Dir Protocol) → Result MethodError Unit × Store
stored_protocols s none = (raise invalid, s)
stored_protocols s (some protocols) = (ok tt, record s { protocols = protocols })

pub stored_runs : Store → Option (Dir Run) → Result MethodError Unit × Store
stored_runs s none = (raise invalid, s)
stored_runs s (some runs) = (ok tt, record s { runs = runs })

module _ (checks : Checks) where
  -- the checks of `create_protocol`, and the record that it writes
  pub draft : String → String → ℕ → String → Protocol → Store → Result MethodError Protocol
  draft run_id id now created_by given s = do
    run ← run_at checks run_id s
    refuse (not (is_text run.research_method "systematic_evidence_review")) not_systematic
    refuse (not (run.run_status == "draft") || is_set run.protocol_id) not_draft
    let rec = new_protocol id run_id now created_by given
    refuse (not (checks.protocol rec)) invalid
    check_plan rec
    refuse (not (strip rec.question == strip run.question)) question_differs
    ok rec

  unfoldable pub store_protocol : Protocol → Exec MethodError Store Unit
  unfolding stored_protocols
  store_protocol rec s = stored_protocols s (write_atomic checks.protocol rec.id rec s.protocols)

  unfoldable pub store_run : Run → Exec MethodError Store Unit
  unfolding stored_runs
  store_run rec s = stored_runs s (write_atomic checks.run rec.id rec s.runs)

  -- `id` is the new uuid.
  pub create_protocol : String → String → ℕ → String → Protocol → Exec MethodError Store String
  create_protocol run_id id now created_by given s = elim (draft run_id id now created_by given s) [
    | raise e ↦ (raise e, s)
    | ok rec ↦ let (r, s') = store_protocol rec s in continue r (λ _ t. (ok id, t)) s'
  ]

  abbrev pub frozen : ℕ → Protocol → Protocol
  frozen now protocol = record protocol {
    status = "frozen";
    frozen_at = some (at now);
    content_sha256 = some (content_hash checks protocol);
  }

  unfoldable pub check_draft : Run → Protocol → Result MethodError (Run × Protocol)
  check_draft run protocol = do
    refuse (not (run.run_status == "draft")) not_draft
    refuse
        (protocol.status == "frozen"
          && not (is_text protocol.content_sha256 (content_hash checks protocol)))
        protocol_modified
    ok (run, protocol)

  -- the run and the protocol that `freeze_protocol` starts from
  unfoldable pub freezable : String → Store → Result MethodError (Run × Protocol)
  freezable protocol_id s = do
    protocol ← protocol_at checks protocol_id s
    run ← run_at checks protocol.run_id s
    check_draft run protocol

  abbrev pub bound : String → String → Run → Run
  bound protocol_id digest run = record run {
    protocol_id = some protocol_id;
    protocol_sha256 = some digest;
  }

  unfoldable pub bind_run : Run → Protocol → Exec MethodError Store String
  bind_run run protocol s =
      let digest = content_hash checks protocol in
      let (r, s') = store_run (bound protocol.id digest run) s in
      continue r (λ _ t. (ok digest, t)) s'

  -- the protocol first, where it is still a draft, then the run
  unfoldable pub freeze_steps : ℕ → Run × Protocol → Exec MethodError Store String
  freeze_steps now (run, protocol) s =
      if protocol.status == "frozen"
      then bind_run run protocol s
      else (let (r, s') = store_protocol (frozen now protocol) s in
          continue r (λ _ t. bind_run run protocol t) s')

  unfoldable pub freeze_protocol : String → ℕ → Exec MethodError Store String
  freeze_protocol protocol_id now s = elim (freezable protocol_id s) [
    | raise e ↦ (raise e, s)
    | ok found ↦ freeze_steps now found s
  ]
