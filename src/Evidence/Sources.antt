-- ===== src/Evidence/Sources.antt =====
-- `register_source`, `find_duplicate_source` and `acquire_source` of evidence/__init__.py.
-- The proofs are in the modules below.
use polder_research_pipeline.Base.{
  ℕ, String, Bool, true, false, not, ◌&&◌, ◌||◌, Option, none, some, List, [], ◌∷◌, ◌==◌, is_some,
  if◌then◌else◌, from_keys, is_sha256,
}
use polder_research_pipeline.Base.Result.{Result, ok, raise, refuse, ◌>>=◌, ◌>>◌}
use polder_research_pipeline.Base.Exec.{Exec, continue}
use polder_research_pipeline.Base.Dir.{damaged, parsed, Dir}
use polder_research_pipeline.Base.Time.{Stamp, at, blank}
use polder_research_pipeline.Evidence.Persist.{put}
use polder_research_pipeline.Evidence.Lookup.{assert_record_exists}
use polder_research_pipeline.Evidence.Enrich.{Outcome, enrich, unclassified}
use polder_research_pipeline.Evidence.Records.{
  EvidenceError, bad_id, parent_missing, unreadable, parent_mismatch, bad_sensitivity,
  bad_source_status, bad_acquisition_status, url_required, content_not_allowed, content_required,
  bad_hash, already_acquired, duplicate_content, Source, Store, Checks,
}

-- The arguments of `register_source`; the content is given as its digest.
pub record NewSource : Type 0 where
  pub title : String
  pub source_type : String
  pub media_type : String
  pub raw_digest : Option String
  pub doi : Option String
  pub canonical_url : Option String
  pub content_sha256 : Option String
  pub raw_location : Option String
  pub byte_size : Option ℕ
  pub mime_type : Option String
  pub sensitivity : String
  pub personal_data : Bool
  pub remote_processing_allowed : Bool
  pub tags : List String
  pub source_class : Option String
  pub source_status : String
  pub acquisition_status : String
  pub retrieved_at : Option Stamp

abbrev pub is_set : Option String → Bool
is_set none = false
is_set (some t) = not (t == "")

abbrev pub set_only : Option String → Option String
set_only none = none
set_only (some t) = if t == "" then none else some t

-- `_source_is_acquired`
unfoldable pub source_is_acquired : Source → Bool
source_is_acquired source = elim source.acquisition_status [
  | some status ↦ status == "acquired"
  | none ↦ elim source.source_status [ none ↦ true | some status ↦ not (status == "unacquired") ]
]

-- a missing or empty time is now
abbrev pub or_now : Option Stamp → ℕ → Stamp
or_now none now = at now
or_now (some blank) now = at now
or_now (some t) now = t

abbrev pub is_sensitivity : String → Bool
is_sensitivity s = s == "public" || s == "internal" || s == "confidential" || s == "restricted"

abbrev pub is_source_status : String → Bool
is_source_status s =
    s == "current" || s == "stale" || s == "superseded" || s == "archived" || s == "retracted"

-- a source status of `unacquired` is the old way to say it
abbrev pub modern : NewSource → NewSource
modern arg =
    if arg.source_status == "unacquired"
    then record arg { source_status = "current"; acquisition_status = "unacquired" }
    else arg

-- the digest of the content, where the content is given
abbrev pub digest_of : NewSource → Option String
digest_of arg = elim arg.raw_digest [ none ↦ arg.content_sha256 | some d ↦ some d ]

abbrev pub is_hash : Option String → Bool
is_hash none = true
is_hash (some h) = is_sha256 h

-- a source reference has a URL and no content; an acquired source has a digest
unfoldable pub check_content : NewSource → Option String → Result EvidenceError Unit
check_content arg url = do
  refuse (arg.acquisition_status == "unacquired" && not (is_set url)) url_required
  refuse
      (arg.acquisition_status == "unacquired"
        && (is_some arg.raw_digest || is_some arg.content_sha256))
      content_not_allowed
  refuse (arg.acquisition_status == "acquired" && not (is_set (digest_of arg))) content_required
  refuse (not (is_hash (digest_of arg))) bad_hash

-- `if canonical_url: canonical_url = normalize_url(canonical_url)`
abbrev pub normalized : (String → String) → Option String → Option String
normalized normalize none = none
normalized normalize (some url) = if url == "" then some url else some (normalize url)

abbrev pub new_source : String → ℕ → NewSource → Option String → Source
new_source id now arg url = record {
  id = id;
  source_status = some arg.source_status;
  acquisition_status = some arg.acquisition_status;
  source_type = arg.source_type;
  media_type = arg.media_type;
  title = arg.title;
  discovered_at =
      if arg.acquisition_status == "unacquired" then some (or_now arg.retrieved_at now) else none;
  retrieved_at =
      if arg.acquisition_status == "unacquired" then none else some (or_now arg.retrieved_at now);
  content_sha256 = digest_of arg;
  doi = set_only arg.doi;
  canonical_url = set_only url;
  source_class = arg.source_class;
  raw_location = set_only arg.raw_location;
  byte_size = arg.byte_size;
  mime_type = set_only arg.mime_type;
  sensitivity = some arg.sensitivity;
  personal_data = arg.personal_data;
  remote_processing_allowed = arg.remote_processing_allowed;
  tags = from_keys arg.tags;
  enrichment = unclassified;
}

abbrev pub is_acquired : Option String → Bool
is_acquired none = false
is_acquired (some status) = status == "acquired"

-- the record with what came of its classification
abbrev pub enriched : Outcome → Source → Source
enriched outcome source = record source { enrichment = enrich outcome source.enrichment }

abbrev pub set_sources : Store → Dir Source → Store
set_sources s files = record s { sources = files }

-- the files of the sources, in the order of the file system
unfoldable pub find_by :
    (Source → Option String) → String → Dir Source → Result EvidenceError (Option String)
find_by field expected [] = ok none
find_by field expected ((_, damaged) ∷ files) = raise unreadable
find_by field expected ((_, parsed source) ∷ files) =
    let rest = find_by field expected files in
    elim (field source) [
      | none ↦ rest
      | some actual ↦ if actual == expected then ok (some source.id) else rest
    ]

-- one of the checks, with its expected value made comparable, and the next where it finds nothing
unfoldable pub try_field :
    (Source → Option String)
    → (String → String)
    → Option String
    → Dir Source
    → Result EvidenceError (Option String)
    → Result EvidenceError (Option String)
try_field field comparable none files next = next
try_field field comparable (some expected) files next =
    if expected == "" then next else elim (find_by field (comparable expected) files) [
      | raise e ↦ raise e
      | ok (some id) ↦ ok (some id)
      | ok none ↦ next
    ]

abbrev pub as_it_is : String → String
as_it_is t = t

-- another source has been found
abbrev pub is_other : Option String → String → Bool
is_other none id = false
is_other (some found) id = not (found == id)

-- the source with its content
abbrev pub acquired : String → ℕ → Option String → Option Stamp → ℕ → Source → Source
acquired digest size raw_location retrieved_at now source = record source {
  source_status = some "current";
  acquisition_status = some "acquired";
  content_sha256 = some digest;
  discovered_at = none;
  retrieved_at = some (or_now retrieved_at now);
  byte_size = some size;
  raw_location = elim raw_location [ none ↦ source.raw_location | some l ↦ some l ];
}

abbrev pub source_at : String → Store → Result EvidenceError Source
source_at id s =
    assert_record_exists bad_id parent_missing unreadable parent_mismatch "src_" (λ r. r.id) id
      s.sources

module _ (checks : Checks) where
  abbrev pub put_source : Source → Exec EvidenceError Store Unit
  put_source rec s = put checks.source (λ r. r.id) (λ t. t.sources) set_sources rec s

  -- the checks of `register_source`, and the first record that it writes
  unfoldable pub source_record : String → ℕ → NewSource → Result EvidenceError Source
  source_record id now given = do
    refuse (not (is_sensitivity given.sensitivity)) bad_sensitivity
    let arg = modern given
    refuse (not (is_source_status arg.source_status)) bad_source_status
    refuse
        (not (arg.acquisition_status == "acquired") && not (arg.acquisition_status == "unacquired"))
        bad_acquisition_status
    let url = normalized checks.normalize_url arg.canonical_url
    check_content arg url
    ok (new_source id now arg url)

  -- the second write, of an acquired source that has been classified
  unfoldable pub put_enriched : Outcome → Source → Exec EvidenceError Store Unit
  put_enriched outcome rec s =
      if is_acquired rec.acquisition_status then put_source (enriched outcome rec) s else (ok tt, s)

  -- the two writes
  unfoldable pub put_registered :
      Outcome → Result EvidenceError Source → Exec EvidenceError Store String
  put_registered outcome (raise e) s = (raise e, s)
  put_registered outcome (ok rec) s =
      let (r, s') = put_source rec s in
      continue r
        (λ _ t. let (q, t') = put_enriched outcome rec t in continue q (λ _ u. (ok rec.id, u)) t')
        s'

  -- `id` is the new uuid; `outcome` is what `classify_text` does.
  unfoldable pub register_source :
      String → ℕ → Outcome → NewSource → Exec EvidenceError Store String
  register_source id now outcome arg s = put_registered outcome (source_record id now arg) s

  unfoldable pub find_duplicate_source :
      Option String
      → Option String
      → Option String
      → Option String
      → Store
      → Result EvidenceError (Option String)
  find_duplicate_source doi url content raw s =
      try_field (λ r. r.doi) as_it_is doi s.sources
        (try_field (λ r. normalized checks.normalize_url r.canonical_url) checks.normalize_url url
          s.sources
          (try_field (λ r. r.content_sha256) as_it_is content s.sources
            (try_field (λ r. r.raw_location) as_it_is raw s.sources (ok none))))

  -- the checks of `acquire_source`, and the record before its classification
  unfoldable pub acquisition :
      String → String → ℕ → Option String → Option Stamp → ℕ → Store → Result EvidenceError Source
  acquisition id digest size raw_location retrieved_at now s = do
    source ← source_at id s
    refuse (source_is_acquired source) already_acquired
    duplicate ← find_duplicate_source source.doi none (some digest) none s
    refuse (is_other duplicate id) duplicate_content
    ok (acquired digest size raw_location retrieved_at now source)

  -- the write of the classified record
  unfoldable pub put_acquired :
      String → Outcome → Result EvidenceError Source → Exec EvidenceError Store String
  put_acquired digest outcome (raise e) s = (raise e, s)
  put_acquired digest outcome (ok rec) s =
      let (r, s') = put_source (enriched outcome rec) s in continue r (λ _ t. (ok digest, t)) s'

  -- `digest` and `size` are those of the bytes.
  unfoldable pub acquire_source :
      String
      → String
      → ℕ
      → Option String
      → Option Stamp
      → ℕ
      → Outcome
      → Exec EvidenceError Store String
  acquire_source id digest size raw_location retrieved_at now outcome s =
      put_acquired digest outcome (acquisition id digest size raw_location retrieved_at now s) s
