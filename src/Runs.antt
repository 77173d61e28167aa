-- ===== src/Runs.antt =====
-- src/polder_research/runs/__init__.py: creating a run and changing its status.
-- The proofs are in the modules below.
pub mod Completed
use polder_research_pipeline.Base.{
  ℕ, String, Bool, true, false, not, ◌&&◌, ◌||◌, Option, none, some, List, [], ◌∷◌, ◌==◌, is_some,
  if◌then◌else◌, is_record_id,
}
use polder_research_pipeline.Base.Result.{Result, ok, raise, refuse, ◌>>=◌, ◌>>◌}
use polder_research_pipeline.Base.Exec.{Exec}
use polder_research_pipeline.Base.Dir.{File, damaged, parsed, Dir, read, write_atomic}
use polder_research_pipeline.Base.Time.{at}
use polder_research_pipeline.Method.Records.{
  MethodError, bad_id, unreadable, identity_mismatch, incomplete, not_created_as_draft, invalid,
  Run, Store, Checks,
}
use polder_research_pipeline.Method.Reading.{is_text, frozen_for_run}
use polder_research_pipeline.Method.Complete.{Issue}
use polder_research_pipeline.Method.Complete.Issues.{validate_run_for_completion}

abbrev pub systematic : String
systematic = "systematic_evidence_review"

-- the file, as JSON that names its own id; no schema is asked
unfoldable pub parse_run : String → Option (File Run) → Result MethodError Run
parse_run id none = raise unreadable
parse_run id (some damaged) = raise unreadable
parse_run id (some (parsed run)) = if run.id == id then ok run else raise identity_mismatch

unfoldable pub stored_run : Store → Option (Dir Run) → Result MethodError Unit × Store
stored_run s none = (raise invalid, s)
stored_run s (some runs) = (ok tt, record s { runs = runs })

abbrev pub new_run : String → String → String → String → List String → Run
new_run id question run_status research_method outputs = record {
  id = id;
  run_status = run_status;
  research_method = some research_method;
  question = question;
  protocol_id = none;
  protocol_sha256 = none;
  outputs = outputs;
  started_at = none;
  finished_at = none;
}

-- the record with its new status; the first activation and every ending are timed
abbrev pub with_status : String → ℕ → Run → Run
with_status status now run = record run {
  run_status = status;
  started_at =
      if status == "active" && not (is_some run.started_at) then some (at now) else run.started_at;
  finished_at =
      if status == "completed" || status == "aborted" || status == "failed"
      then some (at now)
      else run.finished_at;
}

abbrev pub is_empty : List Issue → Bool
is_empty [] = true
is_empty (x ∷ xs) = false

module _ (checks : Checks) where
  unfoldable pub store_run : Run → Exec MethodError Store Unit
  unfolding stored_run
  store_run run s = stored_run s (write_atomic checks.run run.id run s.runs)

  -- `id` is the new uuid; it is given back with the state.
  unfoldable pub write_run :
      String → String → String → String → List String → Exec MethodError Store Unit
  write_run id question run_status research_method outputs s =
      if research_method == systematic && not (run_status == "draft")
      then (raise not_created_as_draft, s)
      else store_run (new_run id question run_status research_method outputs) s

  module _ (verify : String → String → Result MethodError Unit) (report_open : Bool) where
    -- `report_open`: whether the completion check has an issue with the audit report
    unfoldable pub check_complete : String → String → Store → Result MethodError Unit
    check_complete run_id status s =
        if status == "completed"
        then (do
          issues ← validate_run_for_completion checks verify run_id s
          refuse (not (is_empty issues) || report_open) incomplete)
        else ok tt

    unfoldable pub check_ready : String → String → Run → Store → Result MethodError Unit
    check_ready run_id status run s =
        if is_text run.research_method systematic && (status == "active" || status == "completed")
        then (do pair ← frozen_for_run checks run_id false s; check_complete run_id status s)
        else ok tt

    unfoldable pub updated_run : String → String → ℕ → Store → Result MethodError Run
    updated_run run_id status now s = do
      refuse (not (is_record_id "run_" run_id)) bad_id
      run ← parse_run run_id (read run_id s.runs)
      check_ready run_id status run s
      ok (with_status status now run)

    unfoldable pub commit_run : Result MethodError Run → Exec MethodError Store Unit
    commit_run (raise e) s = (raise e, s)
    commit_run (ok run) s = store_run run s

    unfoldable pub update_run_status : String → String → ℕ → Exec MethodError Store Unit
    update_run_status run_id status now s = commit_run (updated_run run_id status now s) s
