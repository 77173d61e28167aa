-- ===== src/Method/Extraction/Support.antt =====
-- What a recorded extraction rests on.
use polder_research_pipeline.Base.{
  ℕ, String, ◌≡◌, refl, Bool, true, false, not, ◌&&◌, ◌||◌, List, map, Option, none, some, ◌==◌,
  arith, eq_iff, inl, inr, ◌⊎◌, select, any, contains, ltb, length, distinct, not-false, if-elim,
  sym, ap, ◌∙◌, subst, [], ◌∷◌, ◌++◌, if-false, Bool-cases,
}
use polder_research_pipeline.Base.Result.{
  Result, ok, raise, after, passed, refuse-eq-ok, refuse-ok, ok_injective,
}
use polder_research_pipeline.Base.Dir.{
  read, contents, contents-write, write_atomic, write_atomic-elim,
}
use polder_research_pipeline.Base.Time.{at}
use polder_research_pipeline.Method.Records.{
  MethodError, not_a_reviewer, not_included, unplanned_field, bad_status, value_missing,
  already_extracted, foreign_segment, not_adjudicator, already_adjudicated, not_independent,
  no_disagreement, Run, Protocol, Screening, Source, Segment, Extraction, Store, Checks,
}
use polder_research_pipeline.Method.Final.{final_decision, extracted, groups_of, unanimous}
use polder_research_pipeline.Method.Reading.{
  is_text, is_set, set_only, screenings_of, source_at, is_unacquired, require_acquired_source,
  segment_at, frozen_for_run, is_human,
}
use polder_research_pipeline.Method.Reading.Reads.{is_text-eq, require_acquired_source-eq-ok}
use polder_research_pipeline.Method.Extraction.{
  Reading, first_reviewer, full_text_of, names_source, is_status, is_on, check_segment, check_value,
  check_candidate, check_included, extractions_of, extraction_record, extraction_verdict,
  commit_extraction, record_extraction, adjudicate_extraction, stored_extractions, new_extraction,
  is_extracted_by,
}

complete_both :
    (a b c : Bool) → a ≡ true → (a && (not b || not c)) ≡ false → (b ≡ true) × (c ≡ true)
complete_both a b c h k = ground arith

neither : (a b : Bool) → (not a || not b) ≡ false → (a ≡ true) × (b ≡ true)
neither a b h = ground arith

-- a text, and a segment of the source, among the arguments
abbrev Given : Reading → Store → Type 0
Given arg s =
    (is_set arg.value ≡ true)
    × (id : String) × (segment : Segment) × (arg.segment_id ≡ some id)
    × (segment_at id s ≡ ok segment)
    × (segment.source_id ≡ arg.source_id)

check_segment-eq-ok :
    (o : Option String) (source_id : String) (s : Store) (u : Unit)
    → check_segment o source_id s ≡ ok u
    → is_set o ≡ true
    → (id : String) × (segment : Segment) × (o ≡ some id)
      × (segment_at id s ≡ ok segment)
      × (segment.source_id ≡ source_id)
unfolding check_segment
check_segment-eq-ok none source_id s u h given = absurd (ground arith)
check_segment-eq-ok (some id) source_id s u h given = elim (if-elim (id == "") _ _ h) [
  | inl (e, _) ↦ absurd (ground arith)
  | inr (_, h1) ↦ after (segment_at id s) _ h1 λ segment found h2. (
    id,
    segment,
    refl,
    found,
    (eq_iff segment.source_id source_id).0
        (not-false _ (refuse-eq-ok (not (segment.source_id == source_id)) foreign_segment h2)),
  )
]

check_value-eq-ok :
    (arg : Reading) (s : Store) (u : Unit)
    → check_value arg s ≡ ok u
    → arg.status ≡ "reported"
    → Given arg s
unfolding check_value
check_value-eq-ok arg s u h reported = passed (not (is_status arg.status)) bad_status _ h λ _ h1.
    passed (arg.status == "reported" && (not (is_set arg.value) || not (is_set arg.segment_id)))
      value_missing _ h1
      λ complete h2.
        let (value, segment) = complete_both _ _ _ ((eq_iff _ _).1 reported) complete in
        let (id, found, named, there, same) =
          check_segment-eq-ok arg.segment_id arg.source_id s u h2 segment in
        (value, id, found, named, there, same)

check_value-segment :
    (arg : Reading) (s : Store) (u : Unit)
    → check_value arg s ≡ ok u
    → arg.status ≡ "reported"
    → is_set arg.segment_id ≡ true
unfolding check_value
check_value-segment arg s u h reported = passed (not (is_status arg.status)) bad_status _ h λ _ h1.
    passed (arg.status == "reported" && (not (is_set arg.value) || not (is_set arg.segment_id)))
      value_missing _ h1 λ complete h2. (complete_both _ _ _ ((eq_iff _ _).1 reported) complete).1

-- The extraction has a text and names a segment of its source.
abbrev pub Backed : Extraction → Store → Type 0
Backed rec s =
    (is_set rec.value ≡ true)
    × (id : String) × (segment : Segment) × (rec.segment_id ≡ some id)
    × (segment_at id s ≡ ok segment)
    × (segment.source_id ≡ rec.source_id)

set_only-is_set :
    (o : Option String) (id : String) → is_set o ≡ true → o ≡ some id → set_only o ≡ some id
set_only-is_set none id given e = absurd (ground (arith, given))
set_only-is_set (some t) id given e = elim (Bool-cases (t == "")) [
  | inl empty ↦ absurd (ground (arith, given, empty))
  | inr named ↦ if-false none (some t) named ∙ e
]

-- The extraction is the one that the call describes.
pub record Says (run_id id : String) (now : ℕ) (kind : String) (arg : Reading) (rec : Extraction)
    : Type 0 where
  pub id_lem : rec.id ≡ id
  pub run_lem : rec.run_id ≡ run_id
  pub kind_lem : rec.record_kind ≡ kind
  pub candidate : rec.candidate_id ≡ arg.candidate_id
  pub source : rec.source_id ≡ arg.source_id
  pub reviewer : rec.reviewer_id ≡ arg.reviewer_id
  pub field : rec.field ≡ arg.field
  pub status : rec.status ≡ arg.status
  pub rationale : rec.rationale ≡ arg.rationale
  pub value : rec.value ≡ arg.value
  pub segment : rec.segment_id ≡ set_only arg.segment_id
  pub recorded : rec.recorded_at ≡ at now

new_extraction-Says :
    (run_id id : String) (now : ℕ) (kind : String) (resolves : List String) (arg : Reading)
    (protocol : Protocol)
    → Says run_id id now kind arg (new_extraction id run_id protocol now kind resolves arg)
new_extraction-Says run_id id now kind resolves arg protocol = record {
  id_lem = refl;
  run_lem = refl;
  kind_lem = refl;
  candidate = refl;
  source = refl;
  reviewer = refl;
  field = refl;
  status = refl;
  rationale = refl;
  value = refl;
  segment = refl;
  recorded = refl;
}

-- the extraction stands last among the extractions, and nothing else has changed
abbrev pub Added : Extraction → Store → Store → Type 0
Added rec s s' =
    (contents s'.extractions ≡ contents s.extractions ++ rec ∷ [])
    × (s' ≡ record s { extractions = s'.extractions })

module _ (checks : Checks) where
  -- The full text of the candidate was included, by decisions that name the source.
  abbrev pub Included : String → String → String → Store → Type 0
  Included run_id candidate_id source_id s =
      (screenings : List Screening) × (screenings_of checks run_id s ≡ ok screenings)
      × (final_decision (full_text_of candidate_id screenings) ≡ some "include")
      × (names_source source_id (full_text_of candidate_id screenings) ≡ true)

  check_included-eq-ok :
      (run_id : String) (arg : Reading) (s : Store) (u : Unit)
      → check_included checks run_id arg.candidate_id arg.source_id s ≡ ok u
      → Included run_id arg.candidate_id arg.source_id s
  unfolding check_included
  check_included-eq-ok run_id arg s u h =
      after (screenings_of checks run_id s) _ h λ screenings found h1.
        let (final, named) = neither _ _ (
          refuse-eq-ok
            (not (is_text (final_decision (full_text_of arg.candidate_id screenings)) "include")
              || not (names_source arg.source_id (full_text_of arg.candidate_id screenings)))
            not_included h1) in
        (screenings, found, is_text-eq _ _ final, named)

  -- What the extraction rests on in the store before it.
  abbrev pub Supported : String → Extraction → Store → Type 0
  Supported run_id rec s =
      (bound : Run × Protocol) × (source : Source) × (frozen_for_run checks run_id true s
        ≡ ok bound)
      × (rec.protocol_id ≡ bound.1.id)
      × (contains rec.field bound.1.fields ≡ true)
      × (source_at rec.source_id s ≡ ok source)
      × (is_unacquired source ≡ false)
      × Included run_id rec.candidate_id rec.source_id s
      × (rec.status ≡ "reported" → Backed rec s)

  -- an extraction made from checked arguments
  abbrev Made : String → String → ℕ → String → Reading → Store → Extraction → Type 0
  Made run_id id now kind arg s rec = Supported run_id rec s × Says run_id id now kind arg rec

  made :
      (run_id id : String) (now : ℕ) (kind : String) (resolves : List String) (arg : Reading)
      (s : Store) (rec : Extraction) (bound : Run × Protocol) (source : Source) (u1 u2 : Unit)
      → frozen_for_run checks run_id true s ≡ ok bound
      → not (contains arg.field bound.1.fields) ≡ false
      → require_acquired_source arg.source_id s ≡ ok source
      → check_included checks run_id arg.candidate_id arg.source_id s ≡ ok u1
      → check_value arg s ≡ ok u2
      → new_extraction id run_id bound.1 now kind resolves arg ≡ rec
      → Made run_id id now kind arg s rec
  made run_id id now kind resolves arg s rec bound source u1 u2 frozen field got included value
        same =
      let (found, acquired) = require_acquired_source-eq-ok arg.source_id s source got in
      subst (Made run_id id now kind arg s) same (
        (
          bound,
          source,
          frozen,
          refl,
          not-false _ field,
          found,
          acquired,
          check_included-eq-ok run_id arg s u1 included,
          λ reported.
              let (text, sid, segment, named, there, own) =
                check_value-eq-ok arg s u2 value reported in
              (
                text,
                sid,
                segment,
                set_only-is_set arg.segment_id sid (check_value-segment arg s u2 value reported)
                    named,
                there,
                own,
              ),
        ),
        new_extraction-Says run_id id now kind resolves arg bound.1,
      )

  extraction_record-Made :
      (run_id id : String) (now : ℕ) (arg : Reading) (s : Store) (rec : Extraction)
      → extraction_record checks run_id id now arg s ≡ ok rec
      → Made run_id id now "independent" arg s rec
  unfolding extraction_record
  extraction_record-Made run_id id now arg s rec h =
      after (frozen_for_run checks run_id true s) _ h λ bound frozen h1.
        after (check_candidate checks run_id arg.candidate_id s) _ h1 λ _ _ h2.
          passed (not (contains arg.field bound.1.fields)) unplanned_field _ h2 λ field h3.
            passed (not (is_human (first_reviewer arg.reviewer_id bound.1))) not_a_reviewer _ h3
              λ _ h4. after (require_acquired_source arg.source_id s) _ h4 λ source got h5.
                after (check_included checks run_id arg.candidate_id arg.source_id s) _ h5
                  λ u1 included h6. after (check_value arg s) _ h6 λ u2 value h7.
                    after (extractions_of checks run_id s) _ h7 λ existing _ h8.
                      let (_, same) =
                        refuse-ok (any (is_extracted_by arg) existing) already_extracted
                          (new_extraction id run_id bound.1 now "independent" [] arg) h8 in
                      made run_id id now "independent" [] arg s rec bound source u1 u2 frozen field
                        got included value same

  extraction_verdict-Made :
      (run_id id : String) (now : ℕ) (arg : Reading) (s : Store) (rec : Extraction)
      → extraction_verdict checks run_id id now arg s ≡ ok rec
      → Made run_id id now "adjudication" arg s rec
  unfolding extraction_verdict
  extraction_verdict-Made run_id id now arg s rec h =
      after (frozen_for_run checks run_id true s) _ h λ bound frozen h1.
        passed (not (arg.reviewer_id == bound.1.adjudicator)) not_adjudicator _ h1 λ _ h2.
          after (check_candidate checks run_id arg.candidate_id s) _ h2 λ _ _ h3.
            passed (not (contains arg.field bound.1.fields)) unplanned_field _ h3 λ field h4.
              after (require_acquired_source arg.source_id s) _ h4 λ source got h5.
                after (extractions_of checks run_id s) _ h5 λ records _ h6.
                  let existing = select (is_on arg) records in
                  let decided = extracted "independent" existing in
                  let reviewers = map (λ (e : Extraction). e.reviewer_id) decided in
                  passed (any (λ e. e.record_kind == "adjudication") existing) already_adjudicated _
                    h6
                    λ _ h7.
                      passed (ltb (length decided) 2 || ltb (length (distinct reviewers)) 2)
                        not_independent _ h7
                        λ _ h8.
                          passed (ltb (length (distinct (groups_of bound.1.reviewers reviewers))) 2)
                            not_independent _ h8
                            λ _ h9. passed (unanimous decided) no_disagreement _ h9 λ _ h10.
                              after (check_value arg s) _ h10 λ u2 value h11.
                                after
                                  (check_included checks run_id arg.candidate_id arg.source_id s) _
                                  h11
                                  λ u1 included h12.
                                    made run_id id now "adjudication" _ arg s rec bound source u1 u2
                                      frozen field got included value (ok_injective h12)

  store_extraction-eq-ok :
      (rec : Extraction) (id : String) (s s' : Store)
      → read rec.id s.extractions ≡ none
      → stored_extractions rec.id s (write_atomic checks.extraction rec.id rec s.extractions)
        ≡ (ok id, s')
      → Added rec s s'
  unfolding stored_extractions
  store_extraction-eq-ok rec id s s' fresh h =
      elim (write_atomic-elim checks.extraction rec.id rec s.extractions
        (stored_extractions rec.id s) h) [
          | inr (e, wrote) ↦ absurd (ground arith)
          | inl (e, wrote) ↦
              subst (Added rec s) (ap (λ x. x.1) wrote)
                (contents-write rec.id rec s.extractions fresh, refl)
        ]

  committed :
      (r : Result MethodError Extraction) (id : String) (s s' : Store)
      → commit_extraction checks r s ≡ (ok id, s')
      → (rec : Extraction) × (r ≡ ok rec) × (read rec.id s.extractions ≡ none → Added rec s s')
  unfolding commit_extraction
  committed (raise e) id s s' h = absurd (ground arith)
  committed (ok rec) id s s' h = (rec, refl, λ fresh. store_extraction-eq-ok rec id s s' fresh h)

  -- Whether recorded by a reviewer or by the adjudicator, the extraction is the one that the call
  -- describes; it is of a planned field of an active run with a frozen protocol, from an acquired
  -- source that the full-text decisions on its candidate name and whose full text they have
  -- included; and where its status is reported it has a text and a segment of that source. With a
  -- fresh id it stands last among the extractions, and nothing else changes.
  pub record_extraction-Supported :
      (kind run_id id id' : String) (now : ℕ) (arg : Reading) (s s' : Store)
      → read id s.extractions ≡ none
      → ((kind ≡ "independent") × (record_extraction checks run_id id now arg s ≡ (ok id', s')))
        ⊎ ((kind ≡ "adjudication")
            × (adjudicate_extraction checks run_id id now arg s ≡ (ok id', s')))
      → (rec : Extraction) × Supported run_id rec s
        × Says run_id id now kind arg rec
        × Added rec s s'
  unfolding record_extraction adjudicate_extraction
  record_extraction-Supported kind run_id id id' now arg s s' fresh (inl (k, h)) =
      let (rec, e, stored) = committed (extraction_record checks run_id id now arg s) id' s s' h in
      let (support, says) = extraction_record-Made run_id id now arg s rec e in
      (
        rec,
        support,
        subst (λ kind. Says run_id id now kind arg rec) (sym k) says,
        stored (ap (λ i. read i s.extractions) says.id_lem ∙ fresh),
      )
  record_extraction-Supported kind run_id id id' now arg s s' fresh (inr (k, h)) =
      let (rec, e, stored) = committed (extraction_verdict checks run_id id now arg s) id' s s' h in
      let (support, says) = extraction_verdict-Made run_id id now arg s rec e in
      (
        rec,
        support,
        subst (λ kind. Says run_id id now kind arg rec) (sym k) says,
        stored (ap (λ i. read i s.extractions) says.id_lem ∙ fresh),
      )
