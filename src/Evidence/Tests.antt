-- ===== src/Evidence/Tests.antt =====
-- The theorems on evidence at a small store.
use polder_research_pipeline.Base.{
  String, ◌≡◌, refl, true, false, Option, none, some, List, [], ◌∷◌, any, is_record_id, is_sha256,
  arith,
}
use polder_research_pipeline.Base.Result.{ok}
use polder_research_pipeline.Base.Dir.{parsed, read, write, write_atomic, contents}
use polder_research_pipeline.Base.Time.{at}
use polder_research_pipeline.Evidence.Records.{Source, Locator, Store, Checks}
use polder_research_pipeline.Evidence.Enrich.{disabled, unclassified, enrich}
use polder_research_pipeline.Evidence.Lookup.{assert_record_exists, existing}
use polder_research_pipeline.Evidence.Persist.{put, put_twice, persisted}
use polder_research_pipeline.Evidence.Sources.{
  NewSource, acquired, acquisition, acquire_source, register_source, source_is_acquired, find_by,
  try_field, find_duplicate_source, put_acquired, put_registered, source_record, check_content,
  put_enriched,
}
use polder_research_pipeline.Evidence.Register.{register_segment}
use polder_research_pipeline.Evidence.Integrity.{
  IsLinked, IsAcquired, IsSource, IsClaim, IsSegmentOf,
}
use polder_research_pipeline.Evidence.Integrity.Reached.{
  Steps, done, further, source, segment, Steps-IsLinked, Steps-kept,
}
use polder_research_pipeline.Evidence.Acquired.{
  has_digest, acquire_source-new_content, acquisition-any_content,
}

program : Unit {0}
unfolding read write write_atomic is_record_id is_sha256 enrich assert_record_exists existing put
    put_twice persisted acquisition acquire_source source_is_acquired find_by try_field
    find_duplicate_source put_acquired register_source put_registered source_record check_content
    put_enriched
program = tt

abbrev checks : Checks
checks = record {
  source = λ _. true;
  segment = λ _. true;
  claim = λ _. true;
  entity = λ _. true;
  gap = λ _. true;
  conflict = λ _. true;
  edge = λ _. true;
  normalize_url = λ t. t;
}

abbrev empty_store : Store
empty_store = record {
  sources = [];
  segments = [];
  claims = [];
  entities = [];
  gaps = [];
  conflicts = [];
  edges = [];
}

abbrev source_id : String
source_id = "src_01890a5d-ac96-774b-bcce-b302099a8057"

abbrev other_id : String
other_id = "src_01890a5d-ac96-774b-bcce-b302099a8058"

abbrev segment_id : String
segment_id = "seg_01890a5d-ac96-774b-bcce-b302099a8059"

abbrev digest : String
digest = "e3b0c44298fc1c149afbf4c8996fb92427ae41e4649b934ca495991b7852b855"

abbrev new : NewSource
new = record {
  title = "A trial";
  source_type = "article";
  media_type = "text";
  raw_digest = some digest;
  doi = none;
  canonical_url = none;
  content_sha256 = none;
  raw_location = none;
  byte_size = none;
  mime_type = none;
  sensitivity = "public";
  personal_data = false;
  remote_processing_allowed = true;
  tags = [];
  source_class = none;
  source_status = "current";
  acquisition_status = "acquired";
  retrieved_at = none;
}

abbrev locator : Locator
locator = record { scheme = some "page"; value = some "3"; start = none; end = none }

-- a source is registered, then a segment of it
abbrev with_source : Store
with_source = (register_source checks source_id 7 disabled new empty_store).1

abbrev with_segment : Store
with_segment =
    (register_segment checks segment_id 8 disabled source_id "A result." locator with_source).1

no_segments : read segment_id with_source.segments ≡ none
unfolding program
no_segments = refl

first_call : Steps checks empty_store with_source
unfolding read
first_call = further done (source source_id 7 disabled new refl)

two_calls : Steps checks empty_store with_segment
two_calls =
    further first_call (segment segment_id 8 disabled source_id "A result." locator no_segments)

second_call : Steps checks with_source with_segment
second_call = further done (segment segment_id 8 disabled source_id "A result." locator no_segments)

empty_IsLinked : IsLinked empty_store
unfolding read
empty_IsLinked = record {
  segments = λ id rec h. absurd (ground (arith, h));
  claims = λ id rec h. absurd (ground (arith, h));
  entities = λ id rec h. absurd (ground (arith, h));
  conflicts = λ id rec h. absurd (ground (arith, h));
  edges = λ id rec h. absurd (ground (arith, h));
}

Steps-IsLinked_example : IsLinked with_segment
Steps-IsLinked_example = Steps-IsLinked empty_IsLinked two_calls

with_source-IsLinked : IsLinked with_source
with_source-IsLinked = Steps-IsLinked empty_IsLinked first_call

Steps-kept_example :
    (IsAcquired with_source source_id → IsAcquired with_segment source_id)
    × (IsSource with_source source_id → IsSource with_segment source_id)
    × (IsClaim with_source source_id → IsClaim with_segment source_id)
    × (IsSegmentOf with_source source_id source_id → IsSegmentOf with_segment source_id source_id)
Steps-kept_example = Steps-kept with_source-IsLinked second_call source_id source_id

-- a source that is known, but not acquired
abbrev reference : Option String → Source
reference doi = record {
  id = source_id;
  source_status = some "current";
  acquisition_status = some "unacquired";
  source_type = "article";
  media_type = "text";
  title = "A trial";
  discovered_at = some (at 5);
  retrieved_at = none;
  content_sha256 = none;
  doi = doi;
  canonical_url = some "https://example.org/trial";
  source_class = none;
  raw_location = none;
  byte_size = none;
  mime_type = none;
  sensitivity = some "public";
  personal_data = false;
  remote_processing_allowed = true;
  tags = [];
  enrichment = unclassified;
}

abbrev listed : Option String → List (String × Source) → Store
listed doi others = record empty_store {
  sources =
      (source_id, parsed (reference doi))
      ∷ elim others [ [] ↦ [] | (k, r) ∷ _ ↦ (k, parsed r) ∷ [] ];
}

-- another source with the content
abbrev same_content : Source
same_content = record (acquired digest 3 none none 6 (reference none)) { id = other_id }

acquire_source-new_content_example :
    any (has_digest digest) (contents (listed none []).sources) ≡ false
unfolding program
acquire_source-new_content_example =
    acquire_source-new_content checks source_id digest 3 none none 9 disabled (listed none [])
      (acquire_source checks source_id digest 3 none none 9 disabled (listed none [])).1 digest
      (reference none) refl refl refl refl refl

acquisition-any_content_example :
    acquisition checks source_id digest 3 none none 9
      (listed (some "10.1/x") ((other_id, same_content) ∷ []))
    ≡ ok (acquired digest 3 none none 9 (reference (some "10.1/x")))
unfolding program
acquisition-any_content_example =
    acquisition-any_content checks source_id digest 3 none none 9
      (listed (some "10.1/x") ((other_id, same_content) ∷ [])) (reference (some "10.1/x")) refl refl
      refl
