-- ===== src/Decision/Privacy.antt =====
-- `remote_eligibility` of decision/privacy.py. Whether `preflight` matches anything, by regular
-- expressions, is an argument.
use polder_research_pipeline.Base.{
  String, ◌≡◌, Bool, true, false, not, ◌&&◌, ◌||◌, Option, none, some, ◌==◌, if◌then◌else◌, arith,
}

pub data Reason : Type 0 where
  sensitive_or_personal project_approval_missing question_pack_disallows_remote : Reason
  target_approval_missing local_preflight_flagged eligible : Reason

pub record PrivacyDecision : Type 0 where
  pub allowed : Bool
  pub reason : Reason
  pub sensitivity : String
  pub personal_data : Bool

-- The keys of the state that are read. `remote_processing_allowed` holds only the value True.
pub record State : Type 0 where
  pub sensitivity : Option String
  pub personal_data : Bool
  pub remote_processing_allowed : Bool

abbrev pub sensitivity_of : State → String
sensitivity_of state = elim state.sensitivity [ none ↦ "unknown" | some s ↦ s ]

abbrev denied : State → Reason → PrivacyDecision
denied state reason = record {
  allowed = false;
  reason = reason;
  sensitivity = sensitivity_of state;
  personal_data = state.personal_data;
}

unfoldable pub remote_eligibility : State → Bool → Bool → Bool → Bool → PrivacyDecision
remote_eligibility state flagged project_allowed pack_allows explicit =
    if not (sensitivity_of state == "public") || state.personal_data
    then denied state sensitive_or_personal
    else if not project_allowed
    then denied state project_approval_missing
    else if not pack_allows
    then denied state question_pack_disallows_remote
    else if explicit && not state.remote_processing_allowed
    then denied state target_approval_missing
    else if flagged
    then denied state local_preflight_flagged
    else record (denied state eligible) { allowed = true }

-- Text may go to a remote provider exactly if it is public, holds no personal data, the project and
-- the question pack allow it, the target is approved where approval is asked for, and the local
-- preflight finds nothing.
pub remote_eligibility-allowed :
    (state : State) (flagged project_allowed pack_allows explicit : Bool)
    → (remote_eligibility state flagged project_allowed pack_allows explicit).allowed ≡ (
        sensitivity_of state == "public"
        && not state.personal_data
        && project_allowed
        && pack_allows
        && (not explicit || state.remote_processing_allowed)
        && not flagged)
unfolding remote_eligibility
remote_eligibility-allowed state flagged project_allowed pack_allows explicit = ground arith
