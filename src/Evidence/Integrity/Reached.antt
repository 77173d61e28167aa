-- ===== src/Evidence/Integrity/Reached.antt =====
-- All operations of evidence/__init__.py, in any order.
use polder_research_pipeline.Base.{ℕ, String, ◌≡◌, Option, none, List}
use polder_research_pipeline.Base.Time.{Stamp}
use polder_research_pipeline.Base.Dir.{read}
use polder_research_pipeline.Evidence.Records.{Locator, Store, Checks}
use polder_research_pipeline.Evidence.Enrich.{Outcome}
use polder_research_pipeline.Evidence.Sources.{NewSource, register_source, acquire_source}
use polder_research_pipeline.Evidence.Links.{NewClaim, NewEntity, NewEdge}
use polder_research_pipeline.Evidence.Register.{
  register_segment, register_claim, register_entity, register_gap, register_conflict,
  register_evidence_edge,
}
use polder_research_pipeline.Evidence.Integrity.{
  IsLinked, IsAcquired, IsClaim, IsSegmentOf, IsSource, Extends-refl,
}
use polder_research_pipeline.Evidence.Integrity.Writes.{Grows, Extends-trans}
use polder_research_pipeline.Evidence.Integrity.Registered.{
  register_source-Grows, acquire_source-Grows, register_segment-Grows, register_claim-Grows,
  register_entity-Grows, register_gap-Grows, register_conflict-Grows, register_evidence_edge-Grows,
}

-- A call, whatever comes of it. A new source's or segment's id is a new uuid, so it is not in use.
pub data Step (checks : Checks) (s : Store) : Store → Type 0 where
  source :
      (id : String) (now : ℕ) (outcome : Outcome) (arg : NewSource)
      → read id s.sources ≡ none
      → Step checks s (register_source checks id now outcome arg s).1
  acquire :
      (id digest : String) (size : ℕ) (raw : Option String) (retrieved_at : Option Stamp) (now : ℕ)
      (outcome : Outcome)
      → Step checks s (acquire_source checks id digest size raw retrieved_at now outcome s).1
  segment :
      (id : String) (now : ℕ) (outcome : Outcome) (source_id text : String) (locator : Locator)
      → read id s.segments ≡ none
      → Step checks s (register_segment checks id now outcome source_id text locator s).1
  claim :
      (id : String) (now : ℕ) (outcome : Outcome) (arg : NewClaim)
      → Step checks s (register_claim checks id now outcome arg s).1
  entity :
      (id : String) (now : ℕ) (outcome : Outcome) (arg : NewEntity)
      → Step checks s (register_entity checks id now outcome arg s).1
  gap :
      (id : String) (now : ℕ) (description priority status : String)
      → Step checks s (register_gap checks id now description priority status s).1
  conflict :
      (id : String) (now : ℕ) (claim_ids : List String) (severity status : String)
      → Step checks s (register_conflict checks id now claim_ids severity status s).1
  edge :
      (id : String) (now : ℕ) (arg : NewEdge)
      → Step checks s (register_evidence_edge checks id now arg s).1

-- any number of calls
pub data Steps (checks : Checks) (s : Store) : Store → Type 0 where
  done : Steps checks s s
  further : {t u : Store} → Steps checks s t → Step checks t u → Steps checks s u

Step-Grows : {checks : Checks} {s t : Store} → IsLinked s → Step checks s t → Grows s t
Step-Grows {checks} {s} l (source id now outcome arg fresh) =
    register_source-Grows checks s l id now outcome arg fresh
Step-Grows {checks} {s} l (acquire id digest size raw at now outcome) =
    acquire_source-Grows checks s l id digest size raw at now outcome
Step-Grows {checks} {s} l (segment id now outcome of text locator fresh) =
    register_segment-Grows checks s l id now outcome of text locator fresh
Step-Grows {checks} {s} l (claim id now outcome arg) =
    register_claim-Grows checks s l id now outcome arg
Step-Grows {checks} {s} l (entity id now outcome arg) =
    register_entity-Grows checks s l id now outcome arg
Step-Grows {checks} {s} l (gap id now description priority status) =
    register_gap-Grows checks s l id now description priority status
Step-Grows {checks} {s} l (conflict id now ids severity status) =
    register_conflict-Grows checks s l id now ids severity status
Step-Grows {checks} {s} l (edge id now arg) = register_evidence_edge-Grows checks s l id now arg

Steps-Grows : {checks : Checks} {s t : Store} → IsLinked s → Steps checks s t → Grows s t
Steps-Grows l done = record { linked = l; extends = Extends-refl _ }
Steps-Grows l (further steps step) =
    let before = Steps-Grows l steps in
    let g = Step-Grows before.linked step in
    record { linked = g.linked; extends = Extends-trans before.extends g.extends }

-- Whatever calls of the registering operations and of acquire_source follow each other, and whether
-- they succeed or raise, if all readable records are linked before, all are after: each segment,
-- claim and edge is about acquired sources that can be read, each entity about sources that can be
-- read, each conflict about at least two different claims that can be read, each edge about such a
-- claim, and its segment, where it has one, is a segment of its source. New ids of sources and
-- segments are not in use.
pub Steps-IsLinked : {checks : Checks} {s t : Store} → IsLinked s → Steps checks s t → IsLinked t
Steps-IsLinked l steps = (Steps-Grows l steps).linked

-- Under the same conditions, a source that is acquired and readable stays so, and a claim that is
-- readable and a segment that is readable with its source stay so.
pub Steps-kept :
    {checks : Checks} {s t : Store}
    → IsLinked s
    → Steps checks s t
    → (id source_id : String)
    → (IsAcquired s id → IsAcquired t id)
      × (IsSource s id → IsSource t id)
      × (IsClaim s id → IsClaim t id)
      × (IsSegmentOf s source_id id → IsSegmentOf t source_id id)
Steps-kept l steps id source_id =
    let e = (Steps-Grows l steps).extends in
    (e.acquired id, e.source id, e.claim id, e.segment source_id id)
