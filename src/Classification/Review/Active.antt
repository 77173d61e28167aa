-- ===== src/Classification/Review/Active.antt =====
-- What a review of `record_review` supersedes, and which reviews stay active.
use polder_research_pipeline.Base.{
  ℕ, ◌≤◌, String, Bool, true, false, not, ◌&&◌, ◌||◌, Option, none, some, inl, inr, List, [], ◌∷◌,
  ◌++◌, ◌==◌, ltb, any, first, select, length, strip, text_length, ◌≡◌, refl, sym, ◌∙◌, ap, subst,
  arith, eq_iff, ==_self, Bool-cases, not-false, any-none, select_once,
}
use polder_research_pipeline.Base.Result.{
  Result, ok, raise, refuse, ◌>>◌, after, passed, refuse-eq-ok, ok_injective,
}
use polder_research_pipeline.Base.Dir.{damaged, parsed, Dir, read, write, write_atomic-elim}
use polder_research_pipeline.Classification.Records.{Classification}
use polder_research_pipeline.Classification.Provider.{is_nil}
use polder_research_pipeline.Classification.Review.{
  ReviewError, bad_reviewer, nothing_resolved, bad_namespace, bad_reason, unknown_superseded,
  inactive_superseded, failed_classification, conflicting, Review, review_records, supersedes,
  is_active, is_active_id, check_superseded, check_resolutions, classification_at, overlapping,
  among, Request, is_long, review_record, stored_review, put_review, record_review,
}

-- a new file stands last
pub review_records-write :
    (valid : Review → Bool) (rec : Review) (d : Dir Review)
    → read rec.id d ≡ none
    → valid rec ≡ true
    → review_records valid (write rec.id rec d) ≡ review_records valid d ++ rec ∷ []
unfolding review_records read write
review_records-write valid rec [] fresh fits = rw (fits, ==_self rec.id) refl
review_records-write valid rec ((k, damaged) ∷ d) fresh fits =
    ground (arith, review_records-write valid rec d)
review_records-write valid rec ((k, parsed r) ∷ d) fresh fits =
    ground (arith, review_records-write valid rec d)

-- An active id is one that no review supersedes.
pub is_active_id-unsuperseded :
    (records rs : List Review) (id : String)
    → any (λ r. r.id == id && is_active records r) rs ≡ true
    → any (supersedes id) records ≡ false
is_active_id-unsuperseded records [] id h = absurd (ground (arith, h))
is_active_id-unsuperseded records (r ∷ rs) id h =
    elim (Bool-cases (r.id == id && is_active records r)) [
      | inl e ↦
          ap (λ i. any (supersedes i) records) (sym ((eq_iff r.id id).0 (ground (arith, e))))
          ∙ ground (arith, e)
      | inr e ↦ is_active_id-unsuperseded records rs id (ground (arith, e, h))
    ]

check_superseded-active :
    {S : Type 0} (id : String) (rec : Classification S) (records : List Review)
    → check_superseded (some id) rec records ≡ ok tt
    → is_active_id records id ≡ true
unfolding check_superseded
check_superseded-active id rec records h = go (first (λ r. r.id == id) records) refl h
  where
    go :
        (o : Option Review)
        → first (λ r. r.id == id) records ≡ o
        → elim o [
          | none ↦ raise unknown_superseded
          | some prior ↦
              refuse (not (prior.target_id == rec.subject.target_id)) unknown_superseded
              >> refuse (not (is_active_id records id)) inactive_superseded
        ]
          ≡ ok tt
        → is_active_id records id ≡ true
    go none e p = absurd (ground (arith, p))
    go (some prior) e p =
        passed (not (prior.target_id == rec.subject.target_id)) unknown_superseded _ p
          λ _ q. not-false _ (refuse-eq-ok _ inactive_superseded q)

-- Only an id that is not superseded is superseded.
pub supersedes-active :
    {S : Type 0} (given : Option String) (rec : Classification S) (records : List Review)
    (x : String)
    → check_superseded given rec records ≡ ok tt
    → elim given [ none ↦ false | some old ↦ old == x ] ≡ true
    → is_active_id records x ≡ true
supersedes-active none rec records x h e = absurd (ground (arith, e))
supersedes-active (some old) rec records x h e =
    subst (λ i. is_active_id records i ≡ true) ((eq_iff old x).0 e)
      (check_superseded-active old rec records h)

-- a valid record stands under its id
pub review_records-fresh :
    (valid : Review → Bool) (id : String) (d : Dir Review)
    → read id d ≡ none
    → any (λ r. r.id == id) (review_records valid d) ≡ false
unfolding review_records read
review_records-fresh valid id [] fresh = refl
review_records-fresh valid id ((k, damaged) ∷ d) fresh =
    ground (arith, review_records-fresh valid id d)
review_records-fresh valid id ((k, parsed r) ∷ d) fresh =
    ground (arith, review_records-fresh valid id d, eq_iff r.id k, eq_iff k id, eq_iff r.id id)

module _ {S : Type 0} (valid_classification : Classification S → Bool) (valid : Review → Bool)
    (classifications : Dir (Classification S)) where
  -- what the checks of `record_review` have found
  pub record Checked (id : String) (arg : Request) (d : Dir Review) (rec : Review) : Type 0 where
    pub classification : Classification S
    pub own : rec.id ≡ id
    pub about : rec.classification_id ≡ arg.classification_id
    pub resolved : rec.resolutions ≡ arg.resolutions
    pub link : rec.supersedes_review_id ≡ arg.supersedes_review_id
    pub active : rec.status ≡ some "active"
    pub some_field : is_nil arg.resolutions ≡ false
    pub superseded :
        check_superseded arg.supersedes_review_id classification (review_records valid d) ≡ ok tt
    pub conflicts :
        (not (is_nil (overlapping arg.classification_id arg.resolutions (review_records valid d)))
          && not (
              among arg.supersedes_review_id
                (overlapping arg.classification_id arg.resolutions (review_records valid d))))
        ≡ false

  pub review_record-Checked :
      (id : String) (now : ℕ) (arg : Request) (d : Dir Review) (rec : Review)
      → review_record valid_classification valid classifications id now arg d ≡ ok rec
      → Checked id arg d rec
  unfolding review_record
  review_record-Checked id now arg d rec h =
      passed (strip arg.reviewer == "" || ltb 120 (text_length (strip arg.reviewer))) bad_reviewer _
        h
        λ _ h1. passed (is_nil arg.resolutions) nothing_resolved _ h1 λ named h2.
          after (classification_at valid_classification arg.classification_id classifications) _ h2
            λ c _ h3.
              passed
                (strip arg.reviewer_namespace == "" || ltb 80 (text_length arg.reviewer_namespace))
                bad_namespace _ h3
                λ _ h4. passed (is_long 500 arg.reason) bad_reason _ h4 λ _ h5.
                  after (check_superseded arg.supersedes_review_id c (review_records valid d)) _ h5
                    λ _ superseded h6.
                      passed (c.disposition == "failed") failed_classification _ h6 λ _ h7.
                        after (check_resolutions c arg.resolutions) _ h7 λ _ _ h8.
                          passed
                            (not (
                                is_nil (
                                  overlapping arg.classification_id arg.resolutions
                                    (review_records valid d)))
                              && not (
                                  among arg.supersedes_review_id (
                                    overlapping arg.classification_id arg.resolutions
                                      (review_records valid d))))
                            conflicting _ h8
                            λ free made.
                              let same = sym (ok_injective made) in
                              record {
                                classification = c;
                                own = ap (λ r. r.id) same;
                                about = ap (λ r. r.classification_id) same;
                                resolved = ap (λ r. r.resolutions) same;
                                link = ap (λ r. r.supersedes_review_id) same;
                                active = ap (λ r. r.status) same;
                                some_field = named;
                                superseded = superseded;
                                conflicts = free;
                              }

  -- a call adds its record to those that are read, or changes nothing
  record_review-adds :
      (id : String) (now : ℕ) (arg : Request) (d : Dir Review) (I : Dir Review → Type 0)
      → read id d ≡ none
      → I d
      → ((rec : Review)
          → Checked id arg d rec
          → review_records valid (write rec.id rec d) ≡ review_records valid d ++ rec ∷ []
          → I (write rec.id rec d))
      → I (record_review valid_classification valid classifications id now arg d).1
  unfolding record_review put_review stored_review
  record_review-adds id now arg d I fresh before after_write =
      go (review_record valid_classification valid classifications id now arg d) refl
    where
      go :
          (m : Result ReviewError Review)
          → review_record valid_classification valid classifications id now arg d ≡ m
          → I (put_review valid_classification valid classifications m d).1
      go (raise e) from = before
      go (ok rec) from =
          let c = review_record-Checked id now arg d rec from in
          elim (write_atomic-elim valid rec.id rec d
            (λ files. (stored_review valid_classification valid classifications rec d files).1)
            refl) [
              | inl (fits, e) ↦ subst I e (
                  after_write rec c
                    (review_records-write valid rec d (ap (λ i. read i d) c.own ∙ fresh) fits))
              | inr (_, e) ↦ subst I e before
            ]

  -- Every call keeps it so that each id is superseded by at most one of the reviews that can be read,
  -- since only an active review can be superseded. The new id is not in use.
  pub record_review-superseded_once :
      (id : String) (now : ℕ) (arg : Request) (d : Dir Review)
      → read id d ≡ none
      → ((x : String) → length (select (supersedes x) (review_records valid d)) ≤ 1)
      → (x : String)
      → length (
          select (supersedes x) (
            review_records valid
              (record_review valid_classification valid classifications id now arg d).1))
        ≤ 1
  record_review-superseded_once id now arg d fresh before x =
      record_review-adds id now arg d
        (λ files. length (select (supersedes x) (review_records valid files)) ≤ 1) fresh (before x)
        λ rec c added.
          subst (λ rs. length (select (supersedes x) rs) ≤ 1) (sym added)
            (select_once (supersedes x) (review_records valid d) rec (before x) λ e.
              any-none (supersedes x) (review_records valid d) (
                is_active_id-unsuperseded (review_records valid d) (review_records valid d) x (
                  supersedes-active arg.supersedes_review_id c.classification
                    (review_records valid d) x c.superseded
                    (sym (
                        ap (λ (o : Option String). elim o [ none ↦ false | some old ↦ old == x ])
                          c.link)
                      ∙ e))))
