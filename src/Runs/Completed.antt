-- ===== src/Runs/Completed.antt =====
-- A systematic review is completed only when its records are.
use polder_research_pipeline.Base.{
  ℕ, String, ◌≡◌, refl, sym, ap, ◌∙◌, Bool, true, false, not, ◌&&◌, ◌||◌, Option, none, some, List,
  [], ◌∷◌, ◌==◌, arith, inl, inr, if-elim, if-true, is_record_id,
}
use polder_research_pipeline.Base.Result.{
  Result, ok, raise, after, passed, refuse-eq-ok, ok_injective,
}
use polder_research_pipeline.Base.Sets.{All}
use polder_research_pipeline.Base.Dir.{File, damaged, parsed, read}
use polder_research_pipeline.Method.Records.{
  MethodError, bad_id, incomplete, Run, Protocol, Store, Checks,
}
use polder_research_pipeline.Method.Reading.{is_text, frozen_for_run}
use polder_research_pipeline.Method.Complete.{Issue, Review}
use polder_research_pipeline.Method.Complete.Issues.{validate_run_for_completion, review_of}
use polder_research_pipeline.Method.Complete.Decided.{Decided, validate_run_for_completion-Decided}
use polder_research_pipeline.Runs.{
  systematic, parse_run, is_empty, check_complete, check_ready, updated_run, commit_run,
  update_run_status,
}

empty_lem : (issues : List Issue) (b : Bool) → (not (is_empty issues) || b) ≡ false → issues ≡ []
empty_lem [] b h = refl
empty_lem (x ∷ xs) b h = absurd (ground arith)

parse_run-eq-ok :
    (id : String) (file : Option (File Run)) (run : Run)
    → parse_run id file ≡ ok run
    → file ≡ some (parsed run)
unfolding parse_run
parse_run-eq-ok id none run h = absurd (ground arith)
parse_run-eq-ok id (some damaged) run h = absurd (ground arith)
parse_run-eq-ok id (some (parsed r)) run h = elim (if-elim (r.id == id) _ _ h) [
  | inl (_, e) ↦ ap (λ x. some (parsed x)) (ok_injective e)
  | inr (_, e) ↦ absurd (ground arith)
]

file_injective : {a b : Run} → some (parsed a) ≡ some (parsed b) → a ≡ b
file_injective h = cc

module _ (checks : Checks) (verify : String → String → Result MethodError Unit)
    (report_open : Bool) where
  check_ready_complete :
      (run_id : String) (run : Run) (s : Store) (u : Unit)
      → run.research_method ≡ some systematic
      → check_ready checks verify report_open run_id "completed" run s ≡ ok u
      → validate_run_for_completion checks verify run_id s ≡ ok []
  unfolding check_ready check_complete
  check_ready_complete run_id run s u method h =
      let guard : (is_text run.research_method systematic && true) ≡ true = rw (method) refl in
      let steps = sym (if-true _ _ guard) ∙ h in
      after (frozen_for_run checks run_id false s) _ steps λ pair _ h1.
        after (validate_run_for_completion checks verify run_id s) _ h1 λ issues found h2.
          found
          ∙ ap ok (
              empty_lem issues report_open
                (refuse-eq-ok (not (is_empty issues) || report_open) incomplete h2))

  commit_run-eq-ok :
      (r : Result MethodError Run) (s s' : Store)
      → commit_run checks verify report_open r s ≡ (ok tt, s')
      → (run : Run) × (r ≡ ok run)
  unfolding commit_run
  commit_run-eq-ok (raise e) s s' h = absurd (ground arith)
  commit_run-eq-ok (ok run) s s' h = (run, refl)

  -- A run of the systematic method becomes completed only if its protocol is frozen and binds it,
  -- and every candidate of the run that is no duplicate is decided: through its stages and, where
  -- included, with its source, the required appraisal and all fields extracted.
  pub update_run_status-Decided :
      (run_id : String) (now : ℕ) (s s' : Store) (run : Run)
      → read run_id s.runs ≡ some (parsed run)
      → run.research_method ≡ some systematic
      → update_run_status checks verify report_open run_id "completed" now s ≡ (ok tt, s')
      → (bound : Run × Protocol) × (r : Review) × (frozen_for_run checks run_id false s ≡ ok bound)
        × (review_of checks run_id s ≡ ok r)
        × All (λ c. (c.status == "duplicate") ≡ false → Decided bound.1 r c) r.candidates
  unfolding update_run_status updated_run
  update_run_status-Decided run_id now s s' run found method h =
      let (stored, e) =
        commit_run-eq-ok (updated_run checks verify report_open run_id "completed" now s) s s' h in
      passed (not (is_record_id "run_" run_id)) bad_id _ e λ _ h1.
        after (parse_run run_id (read run_id s.runs)) _ h1 λ there parsed_it h2.
          after (check_ready checks verify report_open run_id "completed" there s) _ h2 λ u ready _.
            let same = file_injective (sym (parse_run-eq-ok run_id _ there parsed_it) ∙ found) in
            validate_run_for_completion-Decided checks verify run_id s (
              check_ready_complete run_id there s u (ap (λ r. r.research_method) same ∙ method)
                ready)
