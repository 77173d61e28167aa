-- ===== src/Evidence/Register.antt =====
-- The writes of the six registering functions of evidence/__init__.py: a record that is classified
-- is written before and after its classification.
use polder_research_pipeline.Base.{ℕ, String, List}
use polder_research_pipeline.Base.Exec.{Exec}
use polder_research_pipeline.Base.Dir.{Dir}
use polder_research_pipeline.Evidence.Enrich.{Outcome, enrich}
use polder_research_pipeline.Evidence.Records.{
  EvidenceError, Locator, Segment, Claim, Entity, Gap, Conflict, Edge, Store, Checks,
}
use polder_research_pipeline.Evidence.Persist.{put_once, put_twice}
use polder_research_pipeline.Evidence.Links.{
  NewClaim, NewEntity, NewEdge, segment_record, claim_record, entity_record, gap_record,
  conflict_record, edge_record,
}

abbrev pub set_segments : Store → Dir Segment → Store
set_segments s files = record s { segments = files }

abbrev pub set_claims : Store → Dir Claim → Store
set_claims s files = record s { claims = files }

abbrev pub set_entities : Store → Dir Entity → Store
set_entities s files = record s { entities = files }

abbrev pub set_gaps : Store → Dir Gap → Store
set_gaps s files = record s { gaps = files }

abbrev pub set_conflicts : Store → Dir Conflict → Store
set_conflicts s files = record s { conflicts = files }

abbrev pub set_edges : Store → Dir Edge → Store
set_edges s files = record s { edges = files }

module _ (checks : Checks) where
  -- `id` is the new uuid; `outcome` is what `classify_text` does.
  unfoldable pub register_segment :
      String → ℕ → Outcome → String → String → Locator → Exec EvidenceError Store String
  register_segment id now outcome source_id text locator s =
      put_twice checks.segment (λ r. r.id) (λ t. t.segments) set_segments
        (λ r. record r { enrichment = enrich outcome r.enrichment })
        (segment_record id now source_id text locator s) s

  unfoldable pub register_claim : String → ℕ → Outcome → NewClaim → Exec EvidenceError Store String
  register_claim id now outcome arg s =
      put_twice checks.claim (λ r. r.id) (λ t. t.claims) set_claims
        (λ r. record r { enrichment = enrich outcome r.enrichment }) (claim_record id now arg s) s

  unfoldable pub register_entity :
      String → ℕ → Outcome → NewEntity → Exec EvidenceError Store String
  register_entity id now outcome arg s =
      put_twice checks.entity (λ r. r.id) (λ t. t.entities) set_entities
        (λ r. record r { enrichment = enrich outcome r.enrichment }) (entity_record id now arg s) s

  unfoldable pub register_gap :
      String → ℕ → String → String → String → Exec EvidenceError Store String
  register_gap id now description priority status s =
      put_once checks.gap (λ r. r.id) (λ t. t.gaps) set_gaps
        (gap_record id now description priority status) s

  unfoldable pub register_conflict :
      String → ℕ → List String → String → String → Exec EvidenceError Store String
  register_conflict id now claim_ids severity status s =
      put_once checks.conflict (λ r. r.id) (λ t. t.conflicts) set_conflicts
        (conflict_record id now claim_ids severity status s) s

  unfoldable pub register_evidence_edge : String → ℕ → NewEdge → Exec EvidenceError Store String
  register_evidence_edge id now arg s =
      put_once checks.edge (λ r. r.id) (λ t. t.edges) set_edges (edge_record id now arg s) s
