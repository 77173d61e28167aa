-- ===== src/Method/Screening/Stored.antt =====
-- What a successful screening operation has stored, and what the reads give afterwards.
use polder_research_pipeline.Base.{
  String, ◌≡◌, refl, sym, ap, subst, ◌∙◌, none, List, [], ◌∷◌, ◌++◌, arith, inl, inr,
}
use polder_research_pipeline.Base.Result.{Result, ok, raise, after, ok_injective}
use polder_research_pipeline.Base.Dir.{
  damaged, parsed, Dir, read, contents, contents-write, write_atomic-elim,
}
use polder_research_pipeline.Method.Records.{MethodError, Screening, Store, Checks}
use polder_research_pipeline.Method.Screening.{
  read_all, stored_screenings, store_screening, commit_screening,
}

pub read_all-eq-ok :
    (d : Dir Screening) (xs : List Screening) → read_all d ≡ ok xs → xs ≡ contents d
unfolding read_all
read_all-eq-ok [] xs h = sym (ok_injective h)
read_all-eq-ok ((stem, damaged) ∷ d) xs h = absurd (ground arith)
read_all-eq-ok ((stem, parsed r) ∷ d) xs h =
    after (read_all d) _ h
      λ rest e last. sym (ok_injective last) ∙ ap (◌∷◌ r) (read_all-eq-ok d rest e)

-- the record stands last among the screenings, and nothing else has changed
abbrev pub Appended : Screening → Store → Store → Type 0
Appended rec s s' =
    (contents s'.screenings ≡ contents s.screenings ++ rec ∷ [])
    × (s' ≡ record s { screenings = s'.screenings })

module _ (checks : Checks) where
  store_screening-eq-ok :
      (rec : Screening) (id : String) (s s' : Store)
      → read rec.id s.screenings ≡ none
      → store_screening checks rec s ≡ (ok id, s')
      → Appended rec s s'
  unfolding store_screening stored_screenings
  store_screening-eq-ok rec id s s' fresh h =
      elim (write_atomic-elim checks.screening rec.id rec s.screenings (stored_screenings rec.id s)
        h) [
          | inr (e, wrote) ↦ absurd (ground arith)
          | inl (e, wrote) ↦
              subst (Appended rec s) (ap (λ x. x.1) wrote)
                (contents-write rec.id rec s.screenings fresh, refl)
        ]

  pub commit_screening-eq-ok :
      (r : Result MethodError Screening) (id : String) (s s' : Store)
      → commit_screening checks r s ≡ (ok id, s')
      → (rec : Screening) × (r ≡ ok rec) × (read rec.id s.screenings ≡ none → Appended rec s s')
  unfolding commit_screening
  commit_screening-eq-ok (raise e) id s s' h = absurd (ground arith)
  commit_screening-eq-ok (ok rec) id s s' h =
      (rec, refl, λ fresh. store_screening-eq-ok rec id s s' fresh h)
