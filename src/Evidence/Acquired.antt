-- ===== src/Evidence/Acquired.antt =====
-- What `acquire_source` of evidence/__init__.py achieves, and which duplicates it finds.
use polder_research_pipeline.Base.{
  ℕ, String, ◌≡◌, refl, sym, ◌∙◌, ap, subst, Bool, true, false, ◌&&◌, Option, none, some, inl, inr,
  [], ◌∷◌, ◌==◌, any, arith, eq_iff, not-false, ==_self, if-false, if-elim, if◌then◌else◌,
}
use polder_research_pipeline.Base.Result.{Result, ok, raise, after, passed, ok_injective}
use polder_research_pipeline.Base.Exec.{after_step}
use polder_research_pipeline.Base.Time.{Stamp}
use polder_research_pipeline.Base.Dir.{damaged, parsed, Dir, write, contents}
use polder_research_pipeline.Evidence.Records.{
  EvidenceError, already_acquired, duplicate_content, Source, Store, Checks,
}
use polder_research_pipeline.Evidence.Enrich.{Outcome}
use polder_research_pipeline.Evidence.Sources.{
  source_is_acquired, source_at, find_by, try_field, as_it_is, find_duplicate_source, is_other,
  acquired, acquisition, put_acquired, acquire_source, enriched, set_sources, put_source,
}
use polder_research_pipeline.Evidence.Integrity.{Holds}
use polder_research_pipeline.Evidence.Integrity.Writes.{put-ok}

-- The source has content with this digest.
abbrev pub has_digest : String → Source → Bool
has_digest digest rec = elim rec.content_sha256 [ none ↦ false | some d ↦ d == digest ]

abbrev pub has_doi : String → Source → Bool
has_doi doi rec = elim rec.doi [ none ↦ false | some d ↦ d == doi ]

-- The source is acquired, and its content is the one with this digest.
unfoldable pub HasContent : String → Store → String → Type 0
HasContent digest s id =
    Holds
      (λ rec. (source_is_acquired rec ≡ true) × (rec.content_sha256 ≡ some digest) × (rec.id ≡ id))
      id s.sources

true-ne-false : (◌≡◌ {A = Bool} true false) → ⊥
true-ne-false h = cc

module _ (checks : Checks) where
  acquire_source-made :
      (id digest : String) (size : ℕ) (raw : Option String) (retrieved_at : Option Stamp) (now : ℕ)
      (outcome : Outcome) (s t : Store) (given : String)
      → acquire_source checks id digest size raw retrieved_at now outcome s ≡ (ok given, t)
      → (rec : Source) × (acquisition checks id digest size raw retrieved_at now s ≡ ok rec)
        × (given ≡ digest)
        × (t ≡ set_sources s (write rec.id (enriched outcome rec) s.sources))
  unfolding acquire_source put_acquired
  acquire_source-made id digest size raw retrieved_at now outcome s t given h =
      made (acquisition checks id digest size raw retrieved_at now s) refl h
    where
      made :
          (m : Result EvidenceError Source)
          → acquisition checks id digest size raw retrieved_at now s ≡ m
          → put_acquired checks digest outcome m s ≡ (ok given, t)
          → (rec : Source) × (acquisition checks id digest size raw retrieved_at now s ≡ ok rec)
            × (given ≡ digest)
            × (t ≡ set_sources s (write rec.id (enriched outcome rec) s.sources))
      made (raise e) from written = absurd (ground (arith, ap (λ x. x.0) written))
      made (ok rec) from written =
          after_step (put_source checks (enriched outcome rec) s) (λ _ u. (ok digest, u)) written
            λ a u step last. (
              rec,
              from,
              sym (ok_injective (ap (λ x. x.0) last)),
              sym (ap (λ x. x.1) last)
                  ∙ sym (ap (λ x. x.1) step)
                  ∙ put-ok checks.source (λ r. r.id) (λ v. v.sources) set_sources (λ v. Unit {0})
                      (enriched outcome rec) s a
                      (step ∙ ap (λ v. (ok a, v)) (sym (ap (λ x. x.1) step))),
            )

  -- one file more
  found_at :
      {C : Type 0} (x : String) (rec : Source) (rest r : Result EvidenceError (Option String))
      → elim rec.content_sha256 [
        | none ↦ rest
        | some actual ↦ if actual == x then ok (some rec.id) else rest
      ]
        ≡ r
      → ((has_digest x rec ≡ true) → ok (some rec.id) ≡ r → C)
      → ((has_digest x rec ≡ false) → rest ≡ r → C)
      → C
  found_at {C} x rec rest r h this other = go rec.content_sha256 refl h
    where
      go :
          (o : Option String)
          → rec.content_sha256 ≡ o
          → elim o [ none ↦ rest | some actual ↦ if actual == x then ok (some rec.id) else rest ]
            ≡ r
          → C
      go none e h = other (ap (λ o. elim o [ none ↦ false | some d ↦ d == x ]) e) h
      go (some d) e h = elim (if-elim (d == x) _ _ h) [
        | inl (same, q) ↦ this (ap (λ o. elim o [ none ↦ false | some d ↦ d == x ]) e ∙ same) q
        | inr (differs, q) ↦
            other (ap (λ o. elim o [ none ↦ false | some d ↦ d == x ]) e ∙ differs) q
      ]

  find_by-none :
      (x : String) (files : Dir Source)
      → find_by (λ r. r.content_sha256) x files ≡ ok none
      → any (has_digest x) (contents files) ≡ false
  unfolding find_by
  find_by-none x [] h = refl
  find_by-none x ((k, damaged) ∷ files) h = absurd (ground arith)
  find_by-none x ((k, parsed rec) ∷ files) h =
      found_at x rec (find_by (λ r. r.content_sha256) x files) (ok none) h
        (λ _ e. absurd (ground (arith, e)))
        (λ differs e. ground (arith, differs, find_by-none x files e))

  find_by-some :
      (x id : String) (files : Dir Source)
      → find_by (λ r. r.content_sha256) x files ≡ ok (some id)
      → any (λ r. r.id == id && has_digest x r) (contents files) ≡ true
  unfolding find_by
  find_by-some x id [] h = absurd (ground arith)
  find_by-some x id ((k, damaged) ∷ files) h = absurd (ground arith)
  find_by-some x id ((k, parsed rec) ∷ files) h =
      found_at x rec (find_by (λ r. r.content_sha256) x files) (ok (some id)) h
        (λ same e. ground (arith, same, e, eq_iff rec.id id))
        (λ differs e. ground (arith, find_by-some x id files e))

  not_elsewhere :
      (id digest : String) (s : Store)
      → any (λ r. r.id == id && has_digest digest r) (contents s.sources) ≡ false
      → (m : Result EvidenceError (Option String)) (duplicate : Option String)
      → find_by (λ r. r.content_sha256) digest s.sources ≡ m
      → elim m [ raise e ↦ raise e | ok (some id) ↦ ok (some id) | ok none ↦ ok none ]
        ≡ ok duplicate
      → is_other duplicate id ≡ false
      → any (has_digest digest) (contents s.sources) ≡ false
  not_elsewhere id digest s own (raise x) duplicate e h only = absurd (ground arith)
  not_elsewhere id digest s own (ok none) duplicate e h only = find_by-none digest s.sources e
  not_elsewhere id digest s own (ok (some found)) duplicate e h only =
      let same = subst (λ o. is_other o id ≡ false) (sym (ok_injective h)) only in
      let itself = (eq_iff found id).0 (not-false _ same) in
      absurd (
        true-ne-false (
          sym (find_by-some digest found s.sources e)
          ∙ ap (λ i. any (λ r. r.id == i && has_digest digest r) (contents s.sources)) itself
          ∙ own))

  -- what one field finds, the fields after it do not change
  try_field-found :
      (field : Source → Option String) (expected : Option String) (files : Dir Source)
      (more : Result EvidenceError (Option String)) (id : String)
      → try_field field as_it_is expected files (ok none) ≡ ok (some id)
      → try_field field as_it_is expected files more ≡ ok (some id)
  unfolding try_field
  try_field-found field none files more id h = absurd (ground arith)
  try_field-found field (some x) files more id h = elim (if-elim (x == "") _ _ h) [
    | inl (_, e) ↦ absurd (ground arith)
    | inr (nonempty, e) ↦ if-false _ _ nonempty ∙ searched (find_by field x files) e
  ]
    where
      searched :
          (m : Result EvidenceError (Option String))
          → elim m [ raise e ↦ raise e | ok (some id) ↦ ok (some id) | ok none ↦ ok none ]
            ≡ ok (some id)
          → elim m [ raise e ↦ raise e | ok (some id) ↦ ok (some id) | ok none ↦ more ]
            ≡ ok (some id)
      searched (raise x) e = absurd (ground arith)
      searched (ok none) e = absurd (ground arith)
      searched (ok (some found)) e = e

  -- If acquire_source returns for a source without a DOI, no source had content with the digest
  -- before, provided that no record with the source's own id had (a source reference has no content).
  pub acquire_source-new_content :
      (id digest : String) (size : ℕ) (raw : Option String) (retrieved_at : Option Stamp) (now : ℕ)
      (outcome : Outcome) (s t : Store) (given : String) (source : Source)
      → source_at id s ≡ ok source
      → source.doi ≡ none
      → (digest == "") ≡ false
      → any (λ r. r.id == id && has_digest digest r) (contents s.sources) ≡ false
      → acquire_source checks id digest size raw retrieved_at now outcome s ≡ (ok given, t)
      → any (has_digest digest) (contents s.sources) ≡ false
  unfolding acquisition find_duplicate_source try_field
  acquire_source-new_content id digest size raw retrieved_at now outcome s t given source found
        plain nonempty own h =
      let (rec, from, _, _) =
        acquire_source-made id digest size raw retrieved_at now outcome s t given h in
      after (source_at id s) _ from λ same found' rest1.
        passed (source_is_acquired same) already_acquired _ rest1 λ _ rest2.
          after (find_duplicate_source checks same.doi none (some digest) none s) _ rest2
            λ duplicate search rest3.
              passed (is_other duplicate id) duplicate_content _ rest3 λ only _.
                let doi = ap (λ r. r.doi) (ok_injective (sym found' ∙ found)) ∙ plain in
                by_content duplicate only (
                  sym (ap (λ o. find_duplicate_source checks o none (some digest) none s) doi)
                  ∙ search)
    where
      by_content :
          (duplicate : Option String)
          → is_other duplicate id ≡ false
          → find_duplicate_source checks none none (some digest) none s ≡ ok duplicate
          → any (has_digest digest) (contents s.sources) ≡ false
      by_content duplicate only search =
          not_elsewhere id digest s own (find_by (λ r. r.content_sha256) digest s.sources) duplicate
            refl (sym (if-false _ _ nonempty) ∙ search) only

  -- A source with a DOI, not yet acquired, that a search for its DOI finds, is given any content: no
  -- digest is refused, also not one that another source has.
  pub acquisition-any_content :
      (id digest : String) (size : ℕ) (raw : Option String) (retrieved_at : Option Stamp) (now : ℕ)
      (s : Store) (source : Source)
      → source_at id s ≡ ok source
      → source_is_acquired source ≡ false
      → find_duplicate_source checks source.doi none none none s ≡ ok (some id)
      → acquisition checks id digest size raw retrieved_at now s
        ≡ ok (acquired digest size raw retrieved_at now source)
  unfolding acquisition find_duplicate_source try_field
  acquisition-any_content id digest size raw retrieved_at now s source found unacquired by_doi =
      rw (found, unacquired, search source.doi by_doi, ==_self id) refl
    where
      search :
          (doi : Option String)
          → find_duplicate_source checks doi none none none s ≡ ok (some id)
          → find_duplicate_source checks doi none (some digest) none s ≡ ok (some id)
      search doi h = try_field-found (λ r. r.doi) doi s.sources _ id h
