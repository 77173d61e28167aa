-- ===== src/Evidence/Links.antt =====
-- `register_segment`, `register_claim`, `register_entity`, `register_gap`, `register_conflict` and
-- `register_evidence_edge` of evidence/__init__.py. Each resolves the records that it refers to
-- before it writes. The proofs are in the modules below.
use polder_research_pipeline.Base.{
  ℕ, String, Bool, true, false, not, ◌||◌, Option, none, some, List, [], ◌∷◌, ◌==◌, ltb, eqb,
  length, distinct, from_keys,
}
use polder_research_pipeline.Base.Result.{Result, ok, raise, refuse, ◌>>=◌, ◌>>◌}
use polder_research_pipeline.Base.Time.{at}
use polder_research_pipeline.Evidence.Lookup.{assert_record_exists}
use polder_research_pipeline.Evidence.Enrich.{unclassified}
use polder_research_pipeline.Evidence.Records.{
  EvidenceError, bad_id, parent_missing, unreadable, parent_mismatch, source_unacquired, no_sources,
  bad_priority, bad_gap_status, too_few_claims, claims_repeat, bad_relation, bad_directness,
  bad_confidence, foreign_segment, no_locator, bad_scheme, Source, Locator, Segment, Claim, Entity,
  Gap, Conflict, Edge, Store,
}
use polder_research_pipeline.Evidence.Sources.{source_is_acquired, source_at, set_only}

abbrev pub segment_at : String → Store → Result EvidenceError Segment
segment_at id s =
    assert_record_exists bad_id parent_missing unreadable parent_mismatch "seg_" (λ r. r.id) id
      s.segments

abbrev pub claim_at : String → Store → Result EvidenceError Claim
claim_at id s =
    assert_record_exists bad_id parent_missing unreadable parent_mismatch "clm_" (λ r. r.id) id
      s.claims

-- a source that is there and acquired
unfoldable pub acquired_at : String → Store → Result EvidenceError Source
acquired_at id s = do
  source ← source_at id s
  refuse (not (source_is_acquired source)) source_unacquired
  ok source

-- the loops over `source_ids` and `claim_ids`
unfoldable pub all_acquired : List String → Store → Result EvidenceError (List Source)
all_acquired [] s = ok []
all_acquired (id ∷ ids) s = do
  source ← acquired_at id s
  rest ← all_acquired ids s
  ok (source ∷ rest)

unfoldable pub all_sources : List String → Store → Result EvidenceError (List Source)
all_sources [] s = ok []
all_sources (id ∷ ids) s = do source ← source_at id s; rest ← all_sources ids s; ok (source ∷ rest)

unfoldable pub all_claims : List String → Store → Result EvidenceError Unit
all_claims [] s = ok tt
all_claims (id ∷ ids) s = do claim ← claim_at id s; all_claims ids s

unfoldable pub segment_record :
    String → ℕ → String → String → Locator → Store → Result EvidenceError Segment
segment_record id now source_id text locator s = do
  source ← acquired_at source_id s
  ok (record {
    id = id;
    source_id = source_id;
    text = text;
    locator = locator;
    extracted_at = at now;
    enrichment = unclassified;
  })

abbrev pub is_empty : List String → Bool
is_empty [] = true
is_empty (x ∷ xs) = false

-- The claim's status and kind are free text.
pub record NewClaim : Type 0 where
  pub statement : String
  pub source_ids : List String
  pub claim_status : String
  pub claim_kind : Option String
  pub tags : List String

unfoldable pub claim_record : String → ℕ → NewClaim → Store → Result EvidenceError Claim
claim_record id now arg s = do
  refuse (is_empty arg.source_ids) no_sources
  sources ← all_acquired arg.source_ids s
  ok (record {
    id = id;
    statement = arg.statement;
    claim_status = arg.claim_status;
    created_at = at now;
    source_ids = arg.source_ids;
    claim_kind = set_only arg.claim_kind;
    tags = from_keys arg.tags;
    enrichment = unclassified;
  })

pub record NewEntity : Type 0 where
  pub name : String
  pub entity_kind : String
  pub aliases : List String
  pub description : Option String
  pub tags : List String
  pub source_ids : List String

unfoldable pub entity_record : String → ℕ → NewEntity → Store → Result EvidenceError Entity
entity_record id now arg s = do
  sources ← all_sources (from_keys arg.source_ids) s
  ok (record {
    id = id;
    name = arg.name;
    entity_kind = arg.entity_kind;
    created_at = at now;
    aliases = arg.aliases;
    description = set_only arg.description;
    tags = from_keys arg.tags;
    source_ids = from_keys arg.source_ids;
    enrichment = unclassified;
  })

abbrev pub is_priority : String → Bool
is_priority p = p == "low" || p == "medium" || p == "high" || p == "critical"

abbrev pub is_gap_status : String → Bool
is_gap_status s =
    s == "open" || s == "investigating" || s == "filled" || s == "deferred" || s == "wontfix"

unfoldable pub gap_record : String → ℕ → String → String → String → Result EvidenceError Gap
gap_record id now description priority status = do
  refuse (not (is_priority priority)) bad_priority
  refuse (not (is_gap_status status)) bad_gap_status
  ok (record {
    id = id;
    description = description;
    priority = priority;
    status = status;
    created_at = at now;
  })

unfoldable pub conflict_record :
    String → ℕ → List String → String → String → Store → Result EvidenceError Conflict
conflict_record id now claim_ids severity status s = do
  refuse (ltb (length claim_ids) 2) too_few_claims
  refuse (not (eqb (length (distinct claim_ids)) (length claim_ids))) claims_repeat
  all_claims claim_ids s
  ok (record {
    id = id;
    claim_ids = claim_ids;
    severity = severity;
    status = status;
    created_at = at now;
  })

pub record NewEdge : Type 0 where
  pub claim_id : String
  pub source_id : String
  pub relation : String
  pub segment_id : Option String
  pub locator : Option Locator
  pub directness : String
  pub confidence : String

abbrev pub is_relation : String → Bool
is_relation r =
    r == "supports"
    || r == "contradicts"
    || r == "partially-supports"
    || r == "qualifies"
    || r == "contextualizes"
    || r == "updates"
    || r == "supersedes"

abbrev pub is_directness : String → Bool
is_directness d = d == "primary" || d == "secondary" || d == "tertiary" || d == "unknown"

abbrev pub is_confidence : String → Bool
is_confidence c = c == "high" || c == "medium" || c == "low"

abbrev pub is_scheme : Option String → Bool
is_scheme none = false
is_scheme (some s) =
    s == "page"
    || s == "section"
    || s == "paragraph"
    || s == "line"
    || s == "timestamp"
    || s == "chapter"
    || s == "anchor"
    || s == "byte-offset"
    || s == "sha256"

-- the locator of the segment, or the given one
unfoldable pub edge_locator :
    Option String → Option Locator → String → Store → Result EvidenceError Locator
edge_locator (some segment_id) given source_id s = do
  segment ← segment_at segment_id s
  refuse (not (segment.source_id == source_id)) foreign_segment
  ok segment.locator
edge_locator none (some locator) source_id s = ok locator
edge_locator none none source_id s = raise no_locator

unfoldable pub edge_record : String → ℕ → NewEdge → Store → Result EvidenceError Edge
edge_record id now arg s = do
  refuse (not (is_relation arg.relation)) bad_relation
  refuse (not (is_directness arg.directness)) bad_directness
  refuse (not (is_confidence arg.confidence)) bad_confidence
  claim ← claim_at arg.claim_id s
  source ← acquired_at arg.source_id s
  locator ← edge_locator arg.segment_id arg.locator arg.source_id s
  refuse (not (is_scheme locator.scheme)) bad_scheme
  ok (record {
    id = id;
    claim_id = arg.claim_id;
    source_id = arg.source_id;
    relation = arg.relation;
    directness = arg.directness;
    confidence = arg.confidence;
    locator = locator;
    created_at = at now;
    segment_id = arg.segment_id;
  })
