-- ===== src/Method/Complete/Decided.antt =====
-- A review without issues is decided through and through.
use polder_research_pipeline.Base.{
  String, ◌≡◌, refl, sym, ap, ◌∙◌, Bool, true, false, not, ◌&&◌, List, [], ◌∷◌, ◌++◌, Option, none,
  some, ◌==◌, arith, eq_iff, inl, inr, select, any, is_some, Option-cases, if-elim, if-true,
  if-false, guarded,
}
use polder_research_pipeline.Base.Sets.{All}
use polder_research_pipeline.Base.Result.{Result, ok, after, ok_injective}
use polder_research_pipeline.Method.Records.{
  MethodError, Run, Protocol, Candidate, Screening, Appraisal, Extraction, Store, Checks,
}
use polder_research_pipeline.Method.Final.{final_decision, final_extraction}
use polder_research_pipeline.Method.Screening.{is_about}
use polder_research_pipeline.Method.Complete.{
  Issue, Review, no_appraisal, other_source, concat_map, issue_if, final_source, source_issues,
  field_issues, included_issues, full_issues, title_issues, decision_issues,
}
use polder_research_pipeline.Method.Complete.Issues.{
  record_issues, review_issues, review_of, validate_run_for_completion,
}
use polder_research_pipeline.Method.Reading.{frozen_for_run}

append_nil : {A : Type 0} (xs ys : List A) → xs ++ ys ≡ [] → (xs ≡ []) × (ys ≡ [])
append_nil [] ys h = (refl, h)
append_nil (x ∷ xs) ys h = absurd (ground arith)

concat_map_nil :
    {A : Type 0} (f : A → List Issue) (xs : List A) → concat_map f xs ≡ [] → All (λ x. f x ≡ []) xs
concat_map_nil f [] h = tt
concat_map_nil f (x ∷ xs) h =
    let (a, b) = append_nil (f x) (concat_map f xs) h in (a, concat_map_nil f xs b)

issue_if_nil : (b : Bool) (i : Issue) → issue_if b i ≡ [] → b ≡ false
issue_if_nil true i h = absurd (ground arith)
issue_if_nil false i h = refl

-- The field is resolved, and from the source.
abbrev pub Resolved : Protocol → List Extraction → String → String → String → Type 0
Resolved protocol extractions id source field =
    let items = select (λ (e : Extraction). e.candidate_id == id && e.field == field) extractions in
    (is_some (final_extraction items protocol) ≡ true)
    × (any (λ (e : Extraction). not (source == e.source_id)) items ≡ false)

-- What an included candidate must have: a source, its appraisal, and every planned field.
abbrev pub Included : Protocol → List Screening → List Appraisal → List Extraction → String → Type 0
Included protocol full_items appraisals extractions id =
    (source : String) × (final_source full_items ≡ some source)
    × (protocol.appraisal_required ≡ true
        → any (λ (a : Appraisal). a.candidate_id == id && a.source_id == source) appraisals ≡ true)
    × All (Resolved protocol extractions id source) protocol.fields

-- A candidate that went through its stages.
abbrev pub Decided : Protocol → Review → Candidate → Type 0
Decided protocol r c =
    (title : String) × (final_decision (select (is_about c.id "title_abstract") r.screenings)
      ≡ some title)
    × (title ≡ "include"
        → (full : String) × (final_decision (select (is_about c.id "full_text") r.screenings)
            ≡ some full)
          × (full ≡ "include"
              → Included protocol (select (is_about c.id "full_text") r.screenings) r.appraisals
                  r.extractions c.id))

field_issues-Resolved :
    (protocol : Protocol) (extractions : List Extraction) (id source field : String)
    → field_issues protocol extractions id (some source) field ≡ []
    → Resolved protocol extractions id source field
unfolding field_issues
field_issues-Resolved protocol extractions id source field h =
    elim (if-elim
      (is_some (
        final_extraction
          (select (λ (e : Extraction). e.candidate_id == id && e.field == field) extractions)
          protocol))
      _ _ h) [
        | inl (e, same) ↦ (e, issue_if_nil _ (other_source id field) same)
        | inr (_, left) ↦ absurd (ground arith)
      ]

no_source_issue :
    (protocol : Protocol) (appraisals : List Appraisal) (id : String)
    → source_issues protocol appraisals id none ≡ []
    → ⊥
unfolding source_issues
no_source_issue protocol appraisals id h = ground arith

source_appraised :
    (protocol : Protocol) (appraisals : List Appraisal) (id source : String)
    → source_issues protocol appraisals id (some source) ≡ []
    → protocol.appraisal_required ≡ true
    → any (λ (a : Appraisal). a.candidate_id == id && a.source_id == source) appraisals ≡ true
unfolding source_issues
source_appraised protocol appraisals id source h required =
    guarded protocol.appraisal_required _ required (issue_if_nil _ (no_appraisal id) h)

fields_lem :
    (protocol : Protocol) (extractions : List Extraction) (id source : String)
    (fields : List String)
    → concat_map (field_issues protocol extractions id (some source)) fields ≡ []
    → All (Resolved protocol extractions id source) fields
fields_lem protocol extractions id source [] h = tt
fields_lem protocol extractions id source (field ∷ fields) h =
    let (a, b) = append_nil (field_issues protocol extractions id (some source) field) _ h in
    (
      field_issues-Resolved protocol extractions id source field a,
      fields_lem protocol extractions id source fields b,
    )

included_issues-Included :
    (protocol : Protocol) (full_items : List Screening) (appraisals : List Appraisal)
    (extractions : List Extraction) (id : String)
    → included_issues protocol full_items appraisals extractions id ≡ []
    → Included protocol full_items appraisals extractions id
unfolding included_issues
included_issues-Included protocol full_items appraisals extractions id h =
    let (a, b) = append_nil (source_issues protocol appraisals id (final_source full_items)) _ h in
    elim (Option-cases (final_source full_items)) [
      | inl e ↦ absurd (
          no_source_issue protocol appraisals id
            (sym (ap (source_issues protocol appraisals id) e) ∙ a))
      | inr (source, e) ↦ (
        source,
        e,
        source_appraised protocol appraisals id source
            (sym (ap (source_issues protocol appraisals id) e) ∙ a),
        fields_lem protocol extractions id source protocol.fields (
            sym (ap (λ o. concat_map (field_issues protocol extractions id o) protocol.fields) e)
            ∙ b),
      )
    ]

full_issues-Included :
    (protocol : Protocol) (full_items : List Screening) (appraisals : List Appraisal)
    (extractions : List Extraction) (id : String) (o : Option String)
    → full_issues protocol full_items appraisals extractions id o ≡ []
    → (full : String) × (o ≡ some full)
      × (full ≡ "include" → Included protocol full_items appraisals extractions id)
unfolding full_issues
full_issues-Included protocol full_items appraisals extractions id none h = absurd (ground arith)
full_issues-Included protocol full_items appraisals extractions id (some full) h = (
  full,
  refl,
  λ e. included_issues-Included protocol full_items appraisals extractions id (
      sym (
        if-true (included_issues protocol full_items appraisals extractions id) []
          ((eq_iff full "include").1 e))
      ∙ h),
)

title_issues-Included :
    (protocol : Protocol) (full_items : List Screening) (appraisals : List Appraisal)
    (extractions : List Extraction) (id : String) (o : Option String)
    → title_issues protocol full_items appraisals extractions id o ≡ []
    → (title : String) × (o ≡ some title)
      × (title ≡ "include"
          → (full : String) × (final_decision full_items ≡ some full)
            × (full ≡ "include" → Included protocol full_items appraisals extractions id))
unfolding title_issues
title_issues-Included protocol full_items appraisals extractions id none h = absurd (ground arith)
title_issues-Included protocol full_items appraisals extractions id (some title) h = (
  title,
  refl,
  λ e.
      full_issues-Included protocol full_items appraisals extractions id (final_decision full_items)
        (sym (
            if-true
              (full_issues protocol full_items appraisals extractions id
                (final_decision full_items))
              [] ((eq_iff title "include").1 e))
          ∙ h),
)

decision_issues-Decided :
    (protocol : Protocol) (r : Review) (c : Candidate)
    → decision_issues protocol r.screenings r.appraisals r.extractions c ≡ []
    → (c.status == "duplicate") ≡ false
    → Decided protocol r c
unfolding decision_issues
decision_issues-Decided protocol r c h unique =
    title_issues-Included protocol (select (is_about c.id "full_text") r.screenings) r.appraisals
      r.extractions c.id (final_decision (select (is_about c.id "title_abstract") r.screenings))
      (sym (
          if-false []
            (title_issues protocol (select (is_about c.id "full_text") r.screenings) r.appraisals
              r.extractions c.id
              (final_decision (select (is_about c.id "title_abstract") r.screenings)))
            unique)
        ∙ h)

candidates_lem :
    (protocol : Protocol) (r : Review) (cs : List Candidate)
    → All (λ c. decision_issues protocol r.screenings r.appraisals r.extractions c ≡ []) cs
    → All (λ c. (c.status == "duplicate") ≡ false → Decided protocol r c) cs
candidates_lem protocol r [] h = tt
candidates_lem protocol r (c ∷ cs) (h, hs) =
    (decision_issues-Decided protocol r c h, candidates_lem protocol r cs hs)

review_issues-Decided :
    (verify : String → String → Result MethodError Unit) (protocol : Protocol) (s : Store)
    (r : Review)
    → review_issues verify protocol s r ≡ []
    → All (λ c. (c.status == "duplicate") ≡ false → Decided protocol r c) r.candidates
unfolding review_issues
review_issues-Decided verify protocol s r h =
    let (h1, _) =
      append_nil
        (record_issues verify protocol s r
          ++ concat_map (decision_issues protocol r.screenings r.appraisals r.extractions)
              r.candidates)
        _ h in
    let (_, h2) = append_nil (record_issues verify protocol s r) _ h1 in
    candidates_lem protocol r r.candidates (concat_map_nil _ r.candidates h2)

module _ (checks : Checks) where
  -- If `validate_run_for_completion` finds no issue among the records of a run, then under its frozen
  -- protocol every candidate of the run that is no duplicate has a final title and abstract decision;
  -- one included there has a final full-text decision; and one included there too has a source, the
  -- appraisal of it if the protocol requires one, and every field of the protocol extracted, resolved
  -- and from that source.
  pub validate_run_for_completion-Decided :
      (verify : String → String → Result MethodError Unit) (run_id : String) (s : Store)
      → validate_run_for_completion checks verify run_id s ≡ ok []
      → (bound : Run × Protocol) × (r : Review) × (frozen_for_run checks run_id false s ≡ ok bound)
        × (review_of checks run_id s ≡ ok r)
        × All (λ c. (c.status == "duplicate") ≡ false → Decided bound.1 r c) r.candidates
  unfolding validate_run_for_completion
  validate_run_for_completion-Decided verify run_id s h =
      after (frozen_for_run checks run_id false s) _ h λ bound frozen h1.
        after (review_of checks run_id s) _ h1 λ r found h2.
          (bound, r, frozen, found, review_issues-Decided verify bound.1 s r (ok_injective h2))
