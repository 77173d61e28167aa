-- ===== src/Evidence/Integrity.antt =====
-- What the records of evidence/__init__.py refer to is there, and how the writes of its operations
-- keep it so.
use polder_research_pipeline.Base.{
  ℕ, String, ◌≡◌, refl, ◌≢◌, sym, ◌∙◌, ap, subst, Bool, true, false, Option, none, some, ◌⊎◌, inl,
  inr, List, [], ◌∷◌, ◌==◌, ◌<◌, ◌≤◌, arith, if◌then◌else◌, eq_iff, length, distinct, Bool-cases,
  if-true, if-false, if-elim,
}
use polder_research_pipeline.Base.Sets.{All, All-map}
use polder_research_pipeline.Base.Dir.{File, parsed, Dir, read, write, read-write}
use polder_research_pipeline.Evidence.Records.{
  Source, Segment, Claim, Entity, Conflict, Edge, Store,
}
use polder_research_pipeline.Evidence.Sources.{source_is_acquired}
pub mod Writes
pub mod Found
pub mod Registered
pub mod Reached

-- A readable record stands under the id, and it satisfies the predicate.
unfoldable pub Holds : {R : Type 0} → (R → Type 0) → String → Dir R → Type 0
Holds {R} P id d = (rec : R) × (read id d ≡ some (parsed rec)) × P rec

unfoldable pub IsAcquired : Store → String → Type 0
IsAcquired s id = Holds (λ rec. source_is_acquired rec ≡ true) id s.sources

unfoldable pub IsSource : Store → String → Type 0
IsSource s id = Holds (λ rec. Unit {0}) id s.sources

unfoldable pub IsClaim : Store → String → Type 0
IsClaim s id = Holds (λ rec. Unit {0}) id s.claims

unfoldable pub IsSegmentOf : Store → String → String → Type 0
IsSegmentOf s source_id id = Holds (λ rec. rec.source_id ≡ source_id) id s.segments

-- what a record of each kind refers to
abbrev pub SegmentLinked : Store → Segment → Type 0
SegmentLinked s rec = IsAcquired s rec.source_id

abbrev pub ClaimLinked : Store → Claim → Type 0
ClaimLinked s rec = (rec.source_ids ≢ []) × All (IsAcquired s) rec.source_ids

abbrev pub EntityLinked : Store → Entity → Type 0
EntityLinked s rec = All (IsSource s) rec.source_ids

abbrev pub ConflictLinked : Store → Conflict → Type 0
ConflictLinked s rec =
    (2 ≤ length rec.claim_ids)
    × (length (distinct rec.claim_ids) ≡ length rec.claim_ids)
    × All (IsClaim s) rec.claim_ids

unfoldable pub Within : Store → String → Option String → Type 0
Within s source_id none = Unit {0}
Within s source_id (some id) = IsSegmentOf s source_id id

abbrev pub EdgeLinked : Store → Edge → Type 0
EdgeLinked s rec =
    IsClaim s rec.claim_id × IsAcquired s rec.source_id × Within s rec.source_id rec.segment_id

-- Every record that can be read refers to records that can be read: segments, claims and edges to
-- acquired sources, an edge's segment belongs to its source, a conflict is between different claims.
pub record IsLinked (s : Store) : Type 0 where
  pub segments :
      (id : String) (rec : Segment) → read id s.segments ≡ some (parsed rec) → SegmentLinked s rec
  pub claims :
      (id : String) (rec : Claim) → read id s.claims ≡ some (parsed rec) → ClaimLinked s rec
  pub entities :
      (id : String) (rec : Entity) → read id s.entities ≡ some (parsed rec) → EntityLinked s rec
  pub conflicts :
      (id : String) (rec : Conflict)
      → read id s.conflicts ≡ some (parsed rec)
      → ConflictLinked s rec
  pub edges : (id : String) (rec : Edge) → read id s.edges ≡ some (parsed rec) → EdgeLinked s rec

-- Nothing that a record may refer to is lost from one state to the next.
pub record Extends (s t : Store) : Type 0 where
  pub acquired : (id : String) → IsAcquired s id → IsAcquired t id
  pub source : (id : String) → IsSource s id → IsSource t id
  pub claim : (id : String) → IsClaim s id → IsClaim t id
  pub segment : (source_id id : String) → IsSegmentOf s source_id id → IsSegmentOf t source_id id

pub Extends-refl : (s : Store) → Extends s s
Extends-refl s = record {
  acquired = λ id h. h;
  source = λ id h. h;
  claim = λ id h. h;
  segment = λ source_id id h. h;
}

Within-Extends :
    {s t : Store}
    → Extends s t
    → (source_id : String) (id : Option String) → Within s source_id id
    → Within t source_id id
unfolding Within
Within-Extends e source_id none h = h
Within-Extends e source_id (some id) h = e.segment source_id id h

pub ClaimLinked-Extends :
    {s t : Store} → Extends s t → (rec : Claim) → ClaimLinked s rec → ClaimLinked t rec
ClaimLinked-Extends e rec (some_source, all) = (some_source, All-map e.acquired rec.source_ids all)

pub EntityLinked-Extends :
    {s t : Store} → Extends s t → (rec : Entity) → EntityLinked s rec → EntityLinked t rec
EntityLinked-Extends e rec all = All-map e.source rec.source_ids all

pub ConflictLinked-Extends :
    {s t : Store} → Extends s t → (rec : Conflict) → ConflictLinked s rec → ConflictLinked t rec
ConflictLinked-Extends e rec (two, different, all) =
    (two, different, All-map e.claim rec.claim_ids all)

pub EdgeLinked-Extends :
    {s t : Store} → Extends s t → (rec : Edge) → EdgeLinked s rec → EdgeLinked t rec
EdgeLinked-Extends e rec (claim, source, within) = (
  e.claim rec.claim_id claim,
  e.acquired rec.source_id source,
  Within-Extends e rec.source_id rec.segment_id within,
)

some_parsed :
    {R : Type 0} {r q : R} → (◌≡◌ {A = Option (File R)} (some (parsed r)) (some (parsed q))) → r ≡ q
some_parsed h = cc

-- After a write under the id, a record that is read is the new one or an old one.
pub written_or_old :
    {R : Type 0} (P : R → Type 0) (k : String) (r : R) (d : Dir R)
    → P r
    → ((id : String) (rec : R) → read id d ≡ some (parsed rec) → P rec)
    → (id : String) (rec : R) → read id (write k r d) ≡ some (parsed rec)
    → P rec
written_or_old P k r d new old id rec h =
    elim (if-elim (k == id) _ _ (sym (read-write k id r d) ∙ h)) [
      | inl (_, same) ↦ subst P (some_parsed same) new
      | inr (_, other) ↦ old id rec other
    ]

-- A write keeps what holds, if it keeps it under its own id.
pub Holds-write :
    {R : Type 0} (P : R → Type 0) (k : String) (r : R) (d : Dir R)
    → ((old : R) → read k d ≡ some (parsed old) → P old → P r)
    → (id : String) → Holds P id d
    → Holds P id (write k r d)
unfolding Holds
Holds-write P k r d keeps id (rec, found, holds) = elim (Bool-cases (k == id)) [
  | inl e ↦ (
    r,
    read-write k id r d ∙ if-true _ _ e,
    keeps rec (ap (λ j. read j d) ((eq_iff k id).0 e) ∙ found) holds,
  )
  | inr e ↦ (rec, read-write k id r d ∙ if-false _ _ e ∙ found, holds)
]
