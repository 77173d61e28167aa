-- ===== src/Classification/Review/Exclusive.antt =====
-- When the new review of `record_review` is the only active one on its fields.
use polder_research_pipeline.Base.{
  ℕ, ◌≤◌, String, Bool, true, false, not, ◌&&◌, ◌||◌, Option, none, some, inl, inr, List, [], ◌∷◌,
  ◌++◌, ◌==◌, any, select, length, ◌≡◌, refl, sym, ◌∙◌, ap, subst, arith, eq_iff, Bool-cases,
  any-append, any-none, select-append, ==_self,
}
use polder_research_pipeline.Base.Result.{Result, ok, raise, ok_injective}
use polder_research_pipeline.Base.Dir.{Dir, read, write_atomic-elim}
use polder_research_pipeline.Classification.Records.{Classification}
use polder_research_pipeline.Classification.Provider.{is_nil}
use polder_research_pipeline.Classification.Review.{
  ReviewError, Resolution, Review, check_superseded, review_records, supersedes, is_active,
  is_active_id, shares_field, overlapping, among, Request, review_record, stored_review, put_review,
  record_review,
}
use polder_research_pipeline.Classification.Review.Active.{
  is_active_id-unsuperseded, review_records-fresh, review_records-write, review_record-Checked,
  Checked, supersedes-active,
}

-- of at most one chosen element, which has the property, a smaller choice without it leaves none
select-none :
    {A : Type 0} (p q p' : A → Bool) (xs : List A)
    → length (select p xs) ≤ 1
    → (is_nil (select p xs) || any q (select p xs)) ≡ true
    → ((x : A) → p' x ≡ true → (p x ≡ true) × (q x ≡ false))
    → any p' xs ≡ false
select-none p q p' [] one which smaller = refl
select-none p q p' (x ∷ xs) one which smaller = elim (Bool-cases (p x)) [
  | inl e ↦
      let empty = no_more (select p xs) (ground (arith, e, one)) in
      let rest = select-none p q p' xs (ground (arith, empty)) (ground (arith, empty)) smaller in
      elim (Bool-cases (p' x)) [
        | inl e' ↦ absurd (ground (arith, e, empty, which, (smaller x e').1))
        | inr e' ↦ ground (arith, e', rest)
      ]
  | inr e ↦
      let rest =
        select-none p q p' xs (ground (arith, e, one)) (ground (arith, e, which)) smaller in
      elim (Bool-cases (p' x)) [
        | inl e' ↦ absurd (ground (arith, e, (smaller x e').0))
        | inr e' ↦ ground (arith, e', rest)
      ]
]
  where
    no_more : {B : Type 0} (ys : List B) → length ys ≤ 0 → ys ≡ []
    no_more [] h = refl
    no_more (y ∷ ys) h = absurd (omega (arith, h))

-- What is active with one review more was active before.
is_active_id-earlier :
    (records : List Review) (rec : Review) (id : String)
    → (rec.id == id) ≡ false
    → is_active_id (records ++ rec ∷ []) id ≡ true
    → is_active_id records id ≡ true
is_active_id-earlier records rec id other h = go records (
    ground (
      arith,
      h,
      any-append (λ r. r.id == id && is_active (records ++ rec ∷ []) r) records rec,
      other,
    ))
  where
    go :
        (rs : List Review)
        → any (λ r. r.id == id && is_active (records ++ rec ∷ []) r) rs ≡ true
        → any (λ r. r.id == id && is_active records r) rs ≡ true
    go [] e = e
    go (r ∷ rs) e = ground (arith, e, go rs, any-append (supersedes r.id) records rec)

-- the reviews that are active, of the classification, and on one of the fields
abbrev pub overlaps : String → List (String × Resolution) → List Review → Review → Bool
overlaps classification_id resolutions records prior =
    is_active_id records prior.id
    && prior.classification_id == classification_id
    && shares_field prior.resolutions resolutions

superseded_among :
    (given : Option String) (prior records : List Review) (rec : Review)
    → rec.supersedes_review_id ≡ given
    → (not (is_nil prior) && not (among given prior)) ≡ false
    → (is_nil prior || any (λ r. supersedes r.id rec) prior) ≡ true
superseded_among none prior records rec link free = ground (arith, free)
superseded_among (some old) prior records rec link free = elim (Bool-cases (is_nil prior)) [
  | inl e ↦ ground (arith, e)
  | inr e ↦ ground (arith, e, go prior (ground (arith, e, free)))
]
  where
    go :
        (rs : List Review)
        → any (λ r. r.id == old) rs ≡ true
        → any (λ r. supersedes r.id rec) rs ≡ true
    go [] h = h
    go (r ∷ rs) h =
        let own : supersedes r.id rec ≡ (old == r.id) =
          ap (λ (o : Option String). elim o [ none ↦ false | some s ↦ s == r.id ]) link in
        ground (arith, h, go rs, own, eq_iff r.id old, eq_iff old r.id)

any-apart :
    {A : Type 0} (r p : A → Bool) (xs : List A)
    → any r xs ≡ false
    → any (λ x. p x && not (r x)) xs ≡ false
    → any p xs ≡ false
any-apart r p [] h k = refl
any-apart r p (x ∷ xs) h k = ground (arith, h, k, any-apart r p xs)

is_active_id-superseded :
    (records : List Review) (rec : Review) (id : String)
    → is_active_id (records ++ rec ∷ []) id ≡ true
    → supersedes id rec ≡ false
is_active_id-superseded records rec id h = ground (
  arith,
  is_active_id-unsuperseded (records ++ rec ∷ []) (records ++ rec ∷ []) id h,
  any-append (supersedes id) records rec,
)

shares_field_self :
    (xs : List (String × Resolution)) → is_nil xs ≡ false → shares_field xs xs ≡ true
shares_field_self [] h = absurd (ground (arith, h))
shares_field_self (x ∷ xs) h = ground (arith, ==_self x.0)

any-both :
    {A : Type 0} (p q : A → Bool) (xs : List A) → any (λ x. p x && q x) xs ≡ true → any p xs ≡ true
any-both p q [] h = absurd (ground (arith, h))
any-both p q (x ∷ xs) h = ground (arith, h, any-both p q xs)

-- A new id is not superseded by its own review.
supersedes-own :
    {S : Type 0} (c : Classification S) (records : List Review) (rec : Review)
    → check_superseded rec.supersedes_review_id c records ≡ ok tt
    → any (λ r. r.id == rec.id) records ≡ false
    → supersedes rec.id rec ≡ false
supersedes-own c records rec checked fresh = elim (Bool-cases (supersedes rec.id rec)) [
  | inr e ↦ e
  | inl e ↦
      let active = supersedes-active rec.supersedes_review_id c records rec.id checked e in
      let there = any-both (λ (r : Review). r.id == rec.id) (is_active records) records active in
      absurd (ground (arith, fresh, there))
]

-- An added review that is active and that no review supersedes has an active id.
is_active_id-added :
    (records : List Review) (rec : Review)
    → rec.status ≡ some "active"
    → any (supersedes rec.id) records ≡ false
    → supersedes rec.id rec ≡ false
    → is_active_id (records ++ rec ∷ []) rec.id ≡ true
is_active_id-added records rec active none_before none_own =
    let status : (elim rec.status [ none ↦ true | some s ↦ s == "active" ]) ≡ true =
      ap (λ (o : Option String). elim o [ none ↦ true | some s ↦ s == "active" ]) active in
    let free : any (supersedes rec.id) (records ++ rec ∷ []) ≡ false =
      ground (arith, any-append (supersedes rec.id) records rec, none_before, none_own) in
    let held : is_active (records ++ rec ∷ []) rec ≡ true = ground (arith, status, free) in
    ground (
      arith,
      any-append (λ r. r.id == rec.id && is_active (records ++ rec ∷ []) r) records rec,
      held,
      ==_self rec.id,
    )

module _ {S : Type 0} (valid_classification : Classification S → Bool) (valid : Review → Bool)
    (classifications : Dir (Classification S)) where
  record_review-eq-ok :
      (id : String) (now : ℕ) (arg : Request) (d d' : Dir Review) (rec : Review)
      → read id d ≡ none
      → record_review valid_classification valid classifications id now arg d ≡ (ok rec, d')
      → Checked valid_classification valid classifications id arg d rec
        × (review_records valid d' ≡ review_records valid d ++ rec ∷ [])
  unfolding record_review put_review stored_review
  record_review-eq-ok id now arg d d' rec fresh h =
      go (review_record valid_classification valid classifications id now arg d) refl h
    where
      go :
          (m : Result ReviewError Review)
          → review_record valid_classification valid classifications id now arg d ≡ m
          → put_review valid_classification valid classifications m d ≡ (ok rec, d')
          → Checked valid_classification valid classifications id arg d rec
            × (review_records valid d' ≡ review_records valid d ++ rec ∷ [])
      go (raise e) from p = absurd (ground (arith, ap (λ x. x.0) p))
      go (ok new) from p =
          elim (write_atomic-elim valid new.id new d
            (stored_review valid_classification valid classifications new d) p) [
              | inr (_, e) ↦ absurd (ground (arith, ap (λ x. x.0) e))
              | inl (fits, e) ↦
                  let same : new ≡ rec = ok_injective (ap (λ x. x.0) e) in
                  let c =
                    review_record-Checked valid_classification valid classifications id now arg d
                      new from in
                  (
                    subst (Checked valid_classification valid classifications id arg d) same c,
                    ap (review_records valid) (sym (ap (λ x. x.1) e))
                        ∙ review_records-write valid new d (ap (λ i. read i d) c.own ∙ fresh) fits
                        ∙ ap (λ r. review_records valid d ++ r ∷ []) same,
                  )
            ]

  -- none of the earlier reviews is an active one on these fields any more
  earlier_inactive :
      (id : String) (arg : Request) (d : Dir Review) (rec : Review)
      → read id d ≡ none
      → length (overlapping arg.classification_id arg.resolutions (review_records valid d)) ≤ 1
      → Checked valid_classification valid classifications id arg d rec
      → any
          (overlaps arg.classification_id arg.resolutions (review_records valid d ++ rec ∷ []))
          (review_records valid d)
        ≡ false
  earlier_inactive id arg d rec fresh one c =
      let records = review_records valid d in
      any-apart (λ r. r.id == id)
        (overlaps arg.classification_id arg.resolutions (records ++ rec ∷ [])) records
        (review_records-fresh valid id d fresh)
        (select-none (overlaps arg.classification_id arg.resolutions records)
          (λ r. supersedes r.id rec) _ records one
          (superseded_among arg.supersedes_review_id
            (overlapping arg.classification_id arg.resolutions records) records rec c.link
            c.conflicts)
          (λ x e.
            let active : is_active_id (records ++ rec ∷ []) x.id ≡ true = ground (arith, e) in
            let other : (rec.id == x.id) ≡ false =
              ground (arith, e, c.own, eq_iff rec.id x.id, eq_iff x.id id) in
            (
              ground (arith, e, is_active_id-earlier records rec x.id other active),
              is_active_id-superseded records rec x.id active,
            )))

  -- the new review is an active one on these fields
  new_active :
      (id : String) (arg : Request) (d : Dir Review) (rec : Review)
      → read id d ≡ none
      → any (supersedes id) (review_records valid d) ≡ false
      → Checked valid_classification valid classifications id arg d rec
      → overlaps arg.classification_id arg.resolutions (review_records valid d ++ rec ∷ []) rec
        ≡ true
  new_active id arg d rec fresh unnamed c =
      let records = review_records valid d in
      let own : any (λ r. r.id == rec.id) records ≡ false =
        ap (λ i. any (λ r. r.id == i) records) c.own ∙ review_records-fresh valid id d fresh in
      let active =
        is_active_id-added records rec c.active
          (ap (λ i. any (supersedes i) records) c.own ∙ unnamed)
          (supersedes-own c.classification records rec
            (ap (λ o. check_superseded o c.classification records) c.link ∙ c.superseded) own) in
      let shared : shares_field rec.resolutions arg.resolutions ≡ true =
        ap (λ xs. shares_field xs arg.resolutions) c.resolved
        ∙ shares_field_self arg.resolutions c.some_field in
      let about : (rec.classification_id == arg.classification_id) ≡ true =
        (eq_iff rec.classification_id arg.classification_id).1 c.about in
      ground (arith, active, shared, about)

  -- If record_review returns and at most one review that resolves one of the fields of the same
  -- classification was active, the new review is added to the others, and it is now the only active
  -- one of the classification that resolves one of these fields. The new id is not in use, and no
  -- review names it as superseded.
  pub record_review-exclusive :
      (id : String) (now : ℕ) (arg : Request) (d d' : Dir Review) (rec : Review)
      → read id d ≡ none
      → any (supersedes id) (review_records valid d) ≡ false
      → length (overlapping arg.classification_id arg.resolutions (review_records valid d)) ≤ 1
      → record_review valid_classification valid classifications id now arg d ≡ (ok rec, d')
      → (review_records valid d' ≡ review_records valid d ++ rec ∷ [])
        × (overlapping arg.classification_id arg.resolutions (review_records valid d') ≡ rec ∷ [])
  record_review-exclusive id now arg d d' rec fresh unnamed one h =
      let (c, added) = record_review-eq-ok id now arg d d' rec fresh h in
      let records = review_records valid d in
      let p = overlaps arg.classification_id arg.resolutions (records ++ rec ∷ []) in
      let earlier = any-none p records (earlier_inactive id arg d rec fresh one c) in
      let last : select p (rec ∷ []) ≡ rec ∷ [] =
        ground (arith, new_active id arg d rec fresh unnamed c) in
      (
        added,
        ap (overlapping arg.classification_id arg.resolutions) added
            ∙ select-append p records (rec ∷ [])
            ∙ ap (λ xs. xs ++ select p (rec ∷ [])) earlier
            ∙ last,
      )
