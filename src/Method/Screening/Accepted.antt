-- ===== src/Method/Screening/Accepted.antt =====
-- What `record_screening_decision` has checked when it records a decision.
use polder_research_pipeline.Base.{
  ℕ, String, ◌≡◌, refl, sym, ap, ◌∙◌, true, false, not, ◌&&◌, ◌||◌, List, [], Option, none, some,
  ◌==◌, arith, eq_iff, inl, inr, ◌⊎◌, Bool, Bool-cases, select, any, contains, guarded, both,
  not-false, if-elim,
}
use polder_research_pipeline.Base.Result.{ok, after, passed, refuse-ok, refuse-eq-ok}
use polder_research_pipeline.Base.Time.{Stamp, blank, garbled, at, naive}
use polder_research_pipeline.Base.Dir.{contents, read}
use polder_research_pipeline.Method.Records.{
  not_unique, not_a_reviewer, bad_stage, bad_outcome, title_not_included, already_screened,
  reason_missing, Run, Protocol, Candidate, Screening, Source, Store, Checks,
}
use polder_research_pipeline.Method.Final.{final_decision}
use polder_research_pipeline.Method.Reading.{
  is_set, source_at, is_unacquired, require_acquired_source, screenings_of, candidate_at,
  frozen_for_run, is_human, find_reviewer, require_timestamp, or_now, set_only,
}
use polder_research_pipeline.Method.Reading.Reads.{is_text-eq, require_acquired_source-eq-ok}
use polder_research_pipeline.Method.Reading.Lists.{records-eq-ok}
use polder_research_pipeline.Method.Screening.{
  Decision, is_stage, is_outcome, check_title, check_source, check_reason, check_planned, is_about,
  is_by, new_screening, screening_decision, record_screening_decision,
}
use polder_research_pipeline.Method.Screening.Stored.{Appended, commit_screening-eq-ok}

module _ (checks : Checks) (run_id : String) where
  -- The candidate was included on its title and abstract.
  abbrev pub TitleIncluded : String → Store → Type 0
  TitleIncluded candidate_id s =
      (prior : List Screening) × (screenings_of checks run_id s ≡ ok prior)
      × (final_decision (select (is_about candidate_id "title_abstract") prior) ≡ some "include")

  check_title-eq-ok :
      (arg : Decision) (s : Store) (u : Unit)
      → check_title checks run_id arg s ≡ ok u
      → arg.stage ≡ "full_text"
      → TitleIncluded arg.candidate_id s
  unfolding check_title
  check_title-eq-ok arg s u h stage = elim (if-elim (arg.stage == "full_text") _ _ h) [
    | inr (e, _) ↦ absurd (ground (arith, eq_iff arg.stage "full_text"))
    | inl (_, h1) ↦ after (screenings_of checks run_id s) _ h1 λ prior found h2.
        (prior, found, is_text-eq _ _ (not-false _ (refuse-eq-ok _ title_not_included h2)))
  ]

-- The decision names a source that has been acquired.
abbrev pub Acquired : Option String → Store → Type 0
Acquired source_id s =
    (id : String) × (source : Source) × (source_id ≡ some id)
    × (source_at id s ≡ ok source)
    × (is_unacquired source ≡ false)

check_source-eq-ok :
    (o : Option String) (s : Store) (u : Unit) → check_source true o s ≡ ok u → Acquired o s
unfolding check_source
check_source-eq-ok none s u h = absurd (ground arith)
check_source-eq-ok (some id) s u h = elim (if-elim (id == "") _ _ h) [
  | inl (_, h1) ↦ absurd (ground arith)
  | inr (_, h1) ↦ after (require_acquired_source id s) _ h1 λ source e _.
      let (found, acquired) = require_acquired_source-eq-ok id s source e in
      (id, source, refl, found, acquired)
]

-- A source that is named is there.
abbrev pub Present : Option String → Store → Type 0
Present none s = Unit {0}
Present (some id) s = (id ≡ "") ⊎ ((source : Source) × (source_at id s ≡ ok source))

check_source-Present :
    (included : Bool) (o : Option String) (s : Store) (u : Unit)
    → check_source included o s ≡ ok u
    → Present o s
unfolding check_source
check_source-Present included none s u h = tt
check_source-Present included (some id) s u h = elim (if-elim (id == "") _ _ h) [
  | inl (e, _) ↦ inl ((eq_iff id "").0 e)
  | inr (_, h1) ↦ elim (if-elim included _ _ h1) [
    | inl (_, h2) ↦
        after (require_acquired_source id s) _ h2
          λ source e _. inr (source, (require_acquired_source-eq-ok id s source e).0)
    | inr (_, h2) ↦ after (source_at id s) _ h2 λ source e _. inr (source, e)
  ]
]

-- A reason that is given is one that the protocol plans.
abbrev pub Planned : Option String → Protocol → Type 0
Planned none protocol = Unit {0}
Planned (some reason) protocol = (reason ≡ "") ⊎ (contains reason protocol.exclusion_reasons ≡ true)

check_planned-Planned :
    (o : Option String) (protocol : Protocol) (u : Unit)
    → check_planned o protocol ≡ ok u
    → Planned o protocol
unfolding check_planned
check_planned-Planned none protocol u h = tt
check_planned-Planned (some reason) protocol u h = elim (Bool-cases (reason == "")) [
  | inl e ↦ inl ((eq_iff reason "").0 e)
  | inr e ↦ inr (ground (arith, e, h))
]

check_reason-Planned :
    (arg : Decision) (protocol : Protocol) (u : Unit)
    → check_reason arg protocol ≡ ok u
    → Planned arg.exclusion_reason protocol
unfolding check_reason
check_reason-Planned arg protocol u h =
    passed (arg.outcome == "exclude" && not (is_set arg.exclusion_reason)) reason_missing _ h
      λ _ h1. check_planned-Planned arg.exclusion_reason protocol u h1

stage-eq :
    (stage : String) → is_stage stage ≡ true → (stage ≡ "title_abstract") ⊎ (stage ≡ "full_text")
stage-eq stage h = elim (Bool-cases (stage == "title_abstract")) [
  | inl e ↦ inl ((eq_iff stage "title_abstract").0 e)
  | inr e ↦ inr ((eq_iff stage "full_text").0 (ground (arith, e, h)))
]

outcome-eq :
    (outcome : String)
    → is_outcome outcome ≡ true
    → (outcome ≡ "include") ⊎ (outcome ≡ "exclude") ⊎ (outcome ≡ "uncertain")
outcome-eq outcome h = elim (Bool-cases (outcome == "include")) [
  | inl e ↦ inl ((eq_iff outcome "include").0 e)
  | inr e ↦ elim (Bool-cases (outcome == "exclude")) [
    | inl e' ↦ inr (inl ((eq_iff outcome "exclude").0 e'))
    | inr e' ↦ inr (inr ((eq_iff outcome "uncertain").0 (ground (arith, e, e', h))))
  ]
]

timed : (stamp : Stamp) (u : Unit) → require_timestamp stamp ≡ ok u → (t : ℕ) × (stamp ≡ at t)
unfolding require_timestamp
timed (at t) u h = (t, refl)
timed blank u h = absurd (ground (arith, h))
timed garbled u h = absurd (ground (arith, h))
timed (naive t) u h = absurd (ground (arith, h))

-- The decision gives a reason for exclusion that the protocol plans.
abbrev pub Reasoned : Option String → Protocol → Type 0
Reasoned exclusion_reason protocol =
    (reason : String) × (exclusion_reason ≡ some reason)
    × (contains reason protocol.exclusion_reasons ≡ true)

planned :
    (o : Option String) (protocol : Protocol) (u : Unit)
    → is_set o ≡ true
    → check_planned o protocol ≡ ok u
    → Reasoned o protocol
unfolding check_planned
planned none protocol u given h = absurd (ground arith)
planned (some reason) protocol u given h = (reason, refl, ground arith)

check_reason-eq-ok :
    (arg : Decision) (protocol : Protocol) (u : Unit)
    → check_reason arg protocol ≡ ok u
    → arg.outcome ≡ "exclude"
    → Reasoned arg.exclusion_reason protocol
unfolding check_reason
check_reason-eq-ok arg protocol u h excluded =
    passed (arg.outcome == "exclude" && not (is_set arg.exclusion_reason)) reason_missing _ h
      λ given h1.
        planned arg.exclusion_reason protocol u (guarded _ _ ((eq_iff _ _).1 excluded) given) h1

-- The record says what was decided, by whom, on what and when.
pub record Says (run_id id : String) (now : ℕ) (arg : Decision) (rec : Screening) : Type 0 where
  pub id_lem : rec.id ≡ id
  pub run_lem : rec.run_id ≡ run_id
  pub kind : rec.decision_kind ≡ "independent"
  pub candidate : rec.candidate_id ≡ arg.candidate_id
  pub stage : rec.stage ≡ arg.stage
  pub reviewer : rec.reviewer_id ≡ arg.reviewer_id
  pub outcome : rec.outcome ≡ arg.outcome
  pub rationale : rec.rationale ≡ arg.rationale
  pub reason : rec.exclusion_reason ≡ set_only arg.exclusion_reason
  pub source : rec.source_id ≡ set_only arg.source_id
  pub decided : rec.decided_at ≡ or_now arg.decided_at now

new_screening-Says :
    (run_id id : String) (now : ℕ) (arg : Decision) (protocol : Protocol) (rec : Screening)
    → rec ≡ new_screening id run_id protocol "independent" [] arg (or_now arg.decided_at now)
    → Says run_id id now arg rec
new_screening-Says run_id id now arg protocol rec same = record {
  id_lem = ap (λ r. r.id) same;
  run_lem = ap (λ r. r.run_id) same;
  kind = ap (λ r. r.decision_kind) same;
  candidate = ap (λ r. r.candidate_id) same;
  stage = ap (λ r. r.stage) same;
  reviewer = ap (λ r. r.reviewer_id) same;
  outcome = ap (λ r. r.outcome) same;
  rationale = ap (λ r. r.rationale) same;
  reason = ap (λ r. r.exclusion_reason) same;
  source = ap (λ r. r.source_id) same;
  decided = ap (λ r. r.decided_at) same;
}

module _ (checks : Checks) where
  -- All that was checked for a decision that came through, and the record that is written for it.
  pub record Accepted (run_id id : String) (now : ℕ) (arg : Decision) (s : Store) (rec : Screening)
      : Type 0 where
    pub run : Run
    pub protocol : Protocol
    pub candidate : Candidate
    pub bound : frozen_for_run checks run_id true s ≡ ok (run, protocol)
    pub there : candidate_at checks arg.candidate_id s ≡ ok candidate
    pub of_run : candidate.run_id ≡ run_id
    pub unique : candidate.status ≡ "unique"
    pub human : is_human (find_reviewer arg.reviewer_id protocol.reviewers) ≡ true
    pub stage : (arg.stage ≡ "title_abstract") ⊎ (arg.stage ≡ "full_text")
    pub outcome :
        (arg.outcome ≡ "include") ⊎ (arg.outcome ≡ "exclude") ⊎ (arg.outcome ≡ "uncertain")
    pub title : arg.stage ≡ "full_text" → TitleIncluded checks run_id arg.candidate_id s
    pub acquired : arg.stage ≡ "full_text" → arg.outcome ≡ "include" → Acquired arg.source_id s
    pub present : Present arg.source_id s
    pub reasoned : arg.outcome ≡ "exclude" → Reasoned arg.exclusion_reason protocol
    pub planned_reason : Planned arg.exclusion_reason protocol
    pub time : ℕ
    pub timestamp : or_now arg.decided_at now ≡ at time
    pub first_vote :
        any (is_by arg) (select (λ d. d.run_id == run_id) (contents s.screenings)) ≡ false
    pub same :
        rec ≡ new_screening id run_id protocol "independent" [] arg (or_now arg.decided_at now)

  pub screening_decision-Accepted :
      (run_id id : String) (now : ℕ) (arg : Decision) (s : Store) (rec : Screening)
      → screening_decision checks run_id id now arg s ≡ ok rec
      → Accepted run_id id now arg s rec
  unfolding screening_decision
  screening_decision-Accepted run_id id now arg s rec h =
      after (frozen_for_run checks run_id true s) _ h λ bound frozen h1.
        after (candidate_at checks arg.candidate_id s) _ h1 λ candidate there h2.
          passed (not (candidate.run_id == run_id) || not (candidate.status == "unique")) not_unique
            _ h2
            λ unique h3.
              passed (not (is_human (find_reviewer arg.reviewer_id bound.1.reviewers)))
                not_a_reviewer _ h3
                λ human h4. passed (not (is_stage arg.stage)) bad_stage _ h4 λ stage h5.
                  passed (not (is_outcome arg.outcome)) bad_outcome _ h5 λ outcome h6.
                    after (check_title checks run_id arg s) _ h6 λ u1 title h7.
                      after
                        (check_source (arg.stage == "full_text" && arg.outcome == "include")
                          arg.source_id s)
                        _ h7
                        λ u2 source h8. after (check_reason arg bound.1) _ h8 λ u3 reason h9.
                          after (require_timestamp (or_now arg.decided_at now)) _ h9 λ u4 time h10.
                            after (screenings_of checks run_id s) _ h10 λ existing found h11.
                              let (none_yet, same) =
                                refuse-ok (any (is_by arg) existing) already_screened
                                  (new_screening id run_id bound.1 "independent" [] arg
                                    (or_now arg.decided_at now))
                                  h11 in
                              let read =
                                records-eq-ok checks.screening (λ d. d.id) (λ d. d.run_id) run_id
                                  s.screenings existing found in
                              let (t, timestamp) = timed (or_now arg.decided_at now) u4 time in
                              record {
                                run = bound.0;
                                protocol = bound.1;
                                candidate = candidate;
                                bound = frozen;
                                there = there;
                                of_run = ground (arith, eq_iff candidate.run_id run_id);
                                unique = ground (arith, eq_iff candidate.status "unique");
                                human = not-false _ human;
                                stage = stage-eq arg.stage (not-false _ stage);
                                outcome = outcome-eq arg.outcome (not-false _ outcome);
                                title = check_title-eq-ok checks run_id arg s u1 title;
                                acquired = λ full included. check_source-eq-ok arg.source_id s u2 (
                                    ap (λ b. check_source b arg.source_id s)
                                      (sym
                                        (both _ _ ((eq_iff _ _).1 full) ((eq_iff _ _).1 included)))
                                    ∙ source);
                                present = check_source-Present _ arg.source_id s u2 source;
                                reasoned = check_reason-eq-ok arg bound.1 u3 reason;
                                planned_reason = check_reason-Planned arg bound.1 u3 reason;
                                time = t;
                                timestamp = timestamp;
                                first_vote = sym (ap (any (is_by arg)) read) ∙ none_yet;
                                same = sym same;
                              }

  pub record_screening_decision-Accepted :
      (run_id id id' : String) (now : ℕ) (arg : Decision) (s s' : Store)
      → read id s.screenings ≡ none
      → record_screening_decision checks run_id id now arg s ≡ (ok id', s')
      → (rec : Screening) × Accepted run_id id now arg s rec
        × Says run_id id now arg rec
        × Appended rec s s'
  unfolding record_screening_decision
  record_screening_decision-Accepted run_id id id' now arg s s' fresh h =
      let (rec, e, stored) =
        commit_screening-eq-ok checks (screening_decision checks run_id id now arg s) id' s s' h in
      let accepted = screening_decision-Accepted run_id id now arg s rec e in
      (
        rec,
        accepted,
        new_screening-Says run_id id now arg accepted.protocol rec accepted.same,
        stored (ap (λ r. read r.id s.screenings) accepted.same ∙ fresh),
      )
