-- ===== src/Method/Tests.antt =====
-- The theorems on protocols and screening at the sample review.
use polder_research_pipeline.Base.{◌≡◌, refl, none, some, [], ◌∷◌, is_record_id, strip, arith}
use polder_research_pipeline.Base.Dir.{parsed, read, contents, write_atomic}
use polder_research_pipeline.Method.Records.{Screening}
use polder_research_pipeline.Method.Final.{final_decision, agreed, by_adjudication}
use polder_research_pipeline.Method.Final.Agreement.{
  Settled, final_decision-Settled, final_decision-late,
}
use polder_research_pipeline.Method.Reading.{
  records, record_at, frozen_for_run, require_acquired_source, require_timestamp, is_human,
  find_reviewer,
}
use polder_research_pipeline.Method.Protocol.{
  freeze_protocol, freezable, check_draft, freeze_steps, bind_run, store_protocol, store_run,
}
use polder_research_pipeline.Method.Protocol.Binding.{Bound, freeze_protocol-Bound}
use polder_research_pipeline.Method.Screening.{
  check_source, check_planned, check_reason, check_title, screening_decision, read_all,
  adjudication, store_screening, commit_screening, record_screening_decision, adjudicate_screening,
}
use polder_research_pipeline.Method.Screening.Accepted.{Accepted}
use polder_research_pipeline.Method.Screening.Once.{VoteOnce, record_screening_decision-VoteOnce}
use polder_research_pipeline.Method.Screening.Resolved.{
  stage_of, is_verdict, VerdictOnce, adjudicate_screening-final_decision,
  adjudicate_screening-VerdictOnce,
}
use polder_research_pipeline.Method.Samples.{
  run_id, protocol_id, checks, draft_run, reviewer, draft_protocol, candidate, at_start,
  frozen_protocol, screening, active, vote_a, vote_b, verdict, arg,
}

program : Unit {0}
unfolding final_decision agreed by_adjudication is_record_id strip record_at records frozen_for_run
    require_acquired_source freeze_protocol freezable check_draft freeze_steps bind_run
    store_protocol store_run write_atomic read require_timestamp is_human find_reviewer check_source
    check_planned check_reason check_title screening_decision read_all adjudication store_screening
    commit_screening record_screening_decision adjudicate_screening
program = tt

final_decision-Settled_example : Settled (vote_a ∷ vote_b ∷ verdict ∷ []) "exclude"
unfolding program
final_decision-Settled_example =
    (final_decision-Settled (vote_a ∷ vote_b ∷ verdict ∷ []) "exclude" refl).1

final_decision-late_example :
    final_decision
      (vote_a ∷ vote_b ∷ verdict ∷ screening "scr_d" "independent" "dan" "include" [] ∷ [])
    ≡ none
unfolding program
final_decision-late_example =
    final_decision-late (vote_a ∷ vote_b ∷ verdict ∷ [])
      (screening "scr_d" "independent" "dan" "include" []) "exclude" refl refl refl

freeze_protocol-Bound_example : Bound checks protocol_id draft_protocol "q" (record at_start {
  runs =
      (
        run_id,
        parsed (record draft_run { protocol_id = some protocol_id; protocol_sha256 = some "q" }),
      )
      ∷ [];
  protocols = (protocol_id, parsed frozen_protocol) ∷ [];
})
unfolding program
freeze_protocol-Bound_example =
    freeze_protocol-Bound checks protocol_id "q" 3 at_start _ draft_run draft_protocol refl refl
      refl refl

no_votes : VoteOnce []
no_votes run candidate stage reviewer = omega arith

record_screening_decision-VoteOnce_example : VoteOnce (vote_a ∷ [])
unfolding program
record_screening_decision-VoteOnce_example =
    record_screening_decision-VoteOnce checks run_id "scr_a" "scr_a" 4 (arg "ann" "include")
      (active []) (active (vote_a ∷ [])) refl refl no_votes

no_verdict : VerdictOnce (vote_a ∷ vote_b ∷ [])
unfolding is_verdict
no_verdict run candidate stage = ground arith

adjudicate_screening-VerdictOnce_example : VerdictOnce (vote_a ∷ vote_b ∷ verdict ∷ [])
unfolding program
adjudicate_screening-VerdictOnce_example =
    adjudicate_screening-VerdictOnce checks run_id "scr_c" "scr_c" 4 (arg "cy" "exclude")
      (active (vote_a ∷ vote_b ∷ [])) (active (vote_a ∷ vote_b ∷ verdict ∷ [])) refl refl no_verdict

adjudicate_screening-final_decision_example :
    final_decision (
      stage_of run_id
        (arg "cy" "exclude")
        (contents (active (vote_a ∷ vote_b ∷ verdict ∷ [])).screenings))
    ≡ some "exclude"
unfolding program
adjudicate_screening-final_decision_example =
    adjudicate_screening-final_decision checks run_id "scr_c" "scr_c" 4 (arg "cy" "exclude")
      (active (vote_a ∷ vote_b ∷ [])) _ refl (omega arith) refl refl
