-- ===== src/Evidence/Integrity/Found.antt =====
-- What the checks of each operation of evidence/__init__.py have found when they pass.
use polder_research_pipeline.Base.{
  ℕ, String, ◌≡◌, ◌≢◌, sym, ap, subst, false, not, Option, none, some, List, [], ◌∷◌, ◌==◌, ◌&&◌,
  ltb, eqb, length, distinct, from_keys, arith, eq_iff, not-false,
}
use polder_research_pipeline.Base.Sets.{All}
use polder_research_pipeline.Base.Result.{ok, after, passed, ok_injective}
use polder_research_pipeline.Base.Time.{Stamp}
use polder_research_pipeline.Evidence.Lookup.{assert_record_exists-read}
use polder_research_pipeline.Evidence.Records.{
  bad_sensitivity, bad_source_status, bad_acquisition_status, already_acquired, duplicate_content,
  bad_id, parent_missing, unreadable, parent_mismatch, source_unacquired, no_sources,
  too_few_claims, claims_repeat, bad_relation, bad_directness, bad_confidence, foreign_segment,
  bad_scheme, Source, Locator, Segment, Claim, Entity, Conflict, Edge, Store, Checks,
}
use polder_research_pipeline.Evidence.Sources.{
  source_is_acquired, source_at, NewSource, source_record, is_sensitivity, is_source_status, modern,
  normalized, check_content, find_duplicate_source, is_other, acquired, acquisition,
}
use polder_research_pipeline.Evidence.Links.{
  segment_at, claim_at, acquired_at, all_acquired, all_sources, all_claims, segment_record,
  NewClaim, claim_record, NewEntity, entity_record, conflict_record, NewEdge, edge_locator,
  edge_record, is_empty, is_relation, is_directness, is_confidence, is_scheme,
}
use polder_research_pipeline.Evidence.Integrity.{
  IsAcquired, IsSource, IsClaim, IsSegmentOf, Within, SegmentLinked, ClaimLinked, EntityLinked,
  ConflictLinked, EdgeLinked, Holds,
}

pub acquired_at-IsAcquired :
    (id : String) (s : Store) (rec : Source) → acquired_at id s ≡ ok rec → IsAcquired s id
unfolding acquired_at IsAcquired Holds
acquired_at-IsAcquired id s rec h = after (source_at id s) _ h λ source found rest.
    passed (not (source_is_acquired source)) source_unacquired _ rest λ is _. (
      source,
      (assert_record_exists-read bad_id parent_missing unreadable parent_mismatch "src_" (λ r. r.id)
          id s.sources source found).0,
      not-false _ is,
    )

pub source_at-IsSource :
    (id : String) (s : Store) (rec : Source) → source_at id s ≡ ok rec → IsSource s id
unfolding IsSource Holds
source_at-IsSource id s rec found = (
  rec,
  (assert_record_exists-read bad_id parent_missing unreadable parent_mismatch "src_" (λ r. r.id) id
      s.sources rec found).0,
  tt,
)

pub claim_at-IsClaim :
    (id : String) (s : Store) (rec : Claim) → claim_at id s ≡ ok rec → IsClaim s id
unfolding IsClaim Holds
claim_at-IsClaim id s rec found = (
  rec,
  (assert_record_exists-read bad_id parent_missing unreadable parent_mismatch "clm_" (λ r. r.id) id
      s.claims rec found).0,
  tt,
)

pub all_acquired-All :
    (ids : List String) (s : Store) (recs : List Source)
    → all_acquired ids s ≡ ok recs
    → All (IsAcquired s) ids
unfolding all_acquired
all_acquired-All [] s recs h = tt
all_acquired-All (id ∷ ids) s recs h = after (acquired_at id s) _ h λ rec found rest.
    after (all_acquired ids s) _ rest
      λ others all _. (acquired_at-IsAcquired id s rec found, all_acquired-All ids s others all)

pub all_sources-All :
    (ids : List String) (s : Store) (recs : List Source)
    → all_sources ids s ≡ ok recs
    → All (IsSource s) ids
unfolding all_sources
all_sources-All [] s recs h = tt
all_sources-All (id ∷ ids) s recs h = after (source_at id s) _ h λ rec found rest.
    after (all_sources ids s) _ rest
      λ others all _. (source_at-IsSource id s rec found, all_sources-All ids s others all)

pub all_claims-All :
    (ids : List String) (s : Store) → all_claims ids s ≡ ok tt → All (IsClaim s) ids
unfolding all_claims
all_claims-All [] s h = tt
all_claims-All (id ∷ ids) s h =
    after (claim_at id s) _ h
      λ rec found rest. (claim_at-IsClaim id s rec found, all_claims-All ids s rest)

pub segment_record-Linked :
    (id : String) (now : ℕ) (source_id text : String) (locator : Locator) (s : Store)
    (rec : Segment)
    → segment_record id now source_id text locator s ≡ ok rec
    → SegmentLinked s rec × (rec.id ≡ id)
unfolding segment_record
segment_record-Linked id now source_id text locator s rec h =
    after (acquired_at source_id s) _ h λ source found rest.
      let e = ok_injective rest in
      (
        subst (IsAcquired s) (ap (λ r. r.source_id) e)
            (acquired_at-IsAcquired source_id s source found),
        sym (ap (λ r. r.id) e),
      )

pub is_empty-ne-nil : (xs : List String) → is_empty xs ≡ false → xs ≢ []
is_empty-ne-nil [] h = absurd (ground arith)
is_empty-ne-nil (x ∷ xs) h = λ e. absurd (ground (arith, ap is_empty e))

pub claim_record-Linked :
    (id : String) (now : ℕ) (arg : NewClaim) (s : Store) (rec : Claim)
    → claim_record id now arg s ≡ ok rec
    → ClaimLinked s rec
unfolding claim_record
claim_record-Linked id now arg s rec h =
    passed (is_empty arg.source_ids) no_sources _ h λ given rest.
      after (all_acquired arg.source_ids s) _ rest λ sources all made.
        subst (ClaimLinked s) (ok_injective made)
          (is_empty-ne-nil arg.source_ids given, all_acquired-All arg.source_ids s sources all)

pub entity_record-Linked :
    (id : String) (now : ℕ) (arg : NewEntity) (s : Store) (rec : Entity)
    → entity_record id now arg s ≡ ok rec
    → EntityLinked s rec
unfolding entity_record
entity_record-Linked id now arg s rec h =
    after (all_sources (from_keys arg.source_ids) s) _ h λ sources all made.
      subst (EntityLinked s) (ok_injective made)
        (all_sources-All (from_keys arg.source_ids) s sources all)

pub conflict_record-Linked :
    (id : String) (now : ℕ) (claim_ids : List String) (severity status : String) (s : Store)
    (rec : Conflict)
    → conflict_record id now claim_ids severity status s ≡ ok rec
    → ConflictLinked s rec
unfolding conflict_record
conflict_record-Linked id now claim_ids severity status s rec h =
    passed (ltb (length claim_ids) 2) too_few_claims _ h λ two rest1.
      passed (not (eqb (length (distinct claim_ids)) (length claim_ids))) claims_repeat _ rest1
        λ different rest2. after (all_claims claim_ids s) _ rest2 λ _ all made.
          subst (ConflictLinked s) (ok_injective made)
            (ground (arith, two), ground (arith, different), all_claims-All claim_ids s all)

pub edge_locator-Within :
    (segment_id : Option String) (given : Option Locator) (source_id : String) (s : Store)
    (locator : Locator)
    → edge_locator segment_id given source_id s ≡ ok locator
    → Within s source_id segment_id
unfolding edge_locator Within IsSegmentOf Holds
edge_locator-Within none given source_id s locator h = tt
edge_locator-Within (some id) given source_id s locator h =
    after (segment_at id s) _ h λ segment found rest.
      passed (not (segment.source_id == source_id)) foreign_segment _ rest λ of _. (
        segment,
        (assert_record_exists-read bad_id parent_missing unreadable parent_mismatch "seg_"
            (λ r. r.id) id s.segments segment found).0,
        (eq_iff segment.source_id source_id).0 (not-false _ of),
      )

pub edge_record-Linked :
    (id : String) (now : ℕ) (arg : NewEdge) (s : Store) (rec : Edge)
    → edge_record id now arg s ≡ ok rec
    → EdgeLinked s rec
unfolding edge_record
edge_record-Linked id now arg s rec h =
    passed (not (is_relation arg.relation)) bad_relation _ h λ _ rest1.
      passed (not (is_directness arg.directness)) bad_directness _ rest1 λ _ rest2.
        passed (not (is_confidence arg.confidence)) bad_confidence _ rest2 λ _ rest3.
          after (claim_at arg.claim_id s) _ rest3 λ claim found rest4.
            after (acquired_at arg.source_id s) _ rest4 λ source acquired rest5.
              after (edge_locator arg.segment_id arg.locator arg.source_id s) _ rest5
                λ locator within rest6.
                  passed (not (is_scheme locator.scheme)) bad_scheme _ rest6 λ _ made.
                    subst (EdgeLinked s) (ok_injective made) (
                      claim_at-IsClaim arg.claim_id s claim found,
                      acquired_at-IsAcquired arg.source_id s source acquired,
                      edge_locator-Within arg.segment_id arg.locator arg.source_id s locator within,
                    )

pub source_record-id :
    (checks : Checks) (id : String) (now : ℕ) (given : NewSource) (rec : Source)
    → source_record checks id now given ≡ ok rec
    → rec.id ≡ id
unfolding source_record
source_record-id checks id now given rec h =
    passed (not (is_sensitivity given.sensitivity)) bad_sensitivity _ h λ _ rest1.
      let arg = modern given in
      let url = normalized checks.normalize_url arg.canonical_url in
      passed (not (is_source_status arg.source_status)) bad_source_status _ rest1 λ _ rest2.
        passed
          (not (arg.acquisition_status == "acquired")
            && not (arg.acquisition_status == "unacquired"))
          bad_acquisition_status _ rest2
          λ _ rest3.
            after (check_content arg url) _ rest3
              λ _ _ made. sym (ap (λ r. r.id) (ok_injective made))

-- What an acquisition gives is the old record with its content.
pub acquisition-acquired :
    (checks : Checks) (id digest : String) (size : ℕ) (raw : Option String)
    (retrieved_at : Option Stamp) (now : ℕ) (s : Store) (rec : Source)
    → acquisition checks id digest size raw retrieved_at now s ≡ ok rec
    → (source : Source) × (source_at id s ≡ ok source)
      × (source_is_acquired source ≡ false)
      × (acquired digest size raw retrieved_at now source ≡ rec)
unfolding acquisition
acquisition-acquired checks id digest size raw retrieved_at now s rec h =
    after (source_at id s) _ h λ source found rest1.
      passed (source_is_acquired source) already_acquired _ rest1 λ unacquired rest2.
        after (find_duplicate_source checks source.doi none (some digest) none s) _ rest2
          λ duplicate _ rest3.
            passed (is_other duplicate id) duplicate_content _ rest3
              λ _ made. (source, found, unacquired, ok_injective made)
