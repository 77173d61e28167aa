-- ===== src/Evidence/Integrity/Registered.antt =====
-- Each operation of evidence/__init__.py that registers a record keeps the links of all records.
use polder_research_pipeline.Base.{
  ℕ, String, ◌≡◌, refl, sym, ◌∙◌, ap, subst, true, Option, none, some, inl, inr, List, ==_self,
  if-true, if-false, Bool-cases,
}
use polder_research_pipeline.Base.Result.{Result, ok, raise}
use polder_research_pipeline.Base.Exec.{continue}
use polder_research_pipeline.Base.Time.{Stamp}
use polder_research_pipeline.Base.Dir.{File, Dir, parsed, read, write, read-write}
use polder_research_pipeline.Evidence.Records.{
  EvidenceError, Source, Locator, Segment, Store, Checks,
}
use polder_research_pipeline.Evidence.Enrich.{Outcome}
use polder_research_pipeline.Evidence.Sources.{
  source_is_acquired, NewSource, put_enriched, put_registered, put_acquired, register_source,
  acquire_source, enriched, set_sources, put_source, is_acquired,
}
use polder_research_pipeline.Evidence.Links.{segment_record, NewClaim, NewEntity, NewEdge}
use polder_research_pipeline.Evidence.Register.{
  register_segment, register_claim, register_entity, register_gap, register_conflict,
  register_evidence_edge, set_segments, set_claims, set_entities, set_conflicts, set_edges,
  set_gaps,
}
use polder_research_pipeline.Evidence.Integrity.{
  IsLinked, Extends-refl, some_parsed, ClaimLinked-Extends, EntityLinked-Extends,
}
use polder_research_pipeline.Evidence.Integrity.Writes.{
  Grows, Extends-trans, continue-keeps, put-keeps, put-ok, source-write, segment-write, claim-write,
  entity-write, gap-write, conflict-write, edge-write, put_once-keeps, put_twice-keeps,
}
use polder_research_pipeline.Evidence.Integrity.Found.{
  segment_record-Linked, claim_record-Linked, entity_record-Linked, conflict_record-Linked,
  edge_record-Linked, source_record-id, acquisition-acquired,
}

none-ne-parsed : {R : Type 0} {r : R} → (◌≡◌ {A = Option (File R)} none (some (parsed r))) → ⊥
none-ne-parsed h = cc

enriched-acquired :
    (outcome : Outcome) (rec : Source)
    → source_is_acquired (enriched outcome rec) ≡ source_is_acquired rec
unfolding source_is_acquired
enriched-acquired outcome rec = refl

start : (s : Store) → IsLinked s → Grows s s
start s l = record { linked = l; extends = Extends-refl s }

then_grows : {s t u : Store} → Grows s t → (IsLinked t → Grows t u) → Grows s u
then_grows g f =
    let h = f g.linked in record { linked = h.linked; extends = Extends-trans g.extends h.extends }

-- what stands under a key that has just been written
pub just_written :
    {R : Type 0} (k : String) (r : R) (d : Dir R) (old : R)
    → read k (write k r d) ≡ some (parsed old)
    → r ≡ old
just_written k r d old h = some_parsed (sym (read-write k k r d ∙ if-true _ _ (==_self k)) ∙ h)

module _ (checks : Checks) (s : Store) (l : IsLinked s) where
  put_enriched-Grows :
      (outcome : Outcome) (rec : Source) (t : Store)
      → Grows s t
      → ((old : Source)
          → read rec.id t.sources ≡ some (parsed old)
          → source_is_acquired old ≡ true
          → source_is_acquired rec ≡ true)
      → Grows s (put_enriched checks outcome rec t).1
  unfolding put_enriched source_is_acquired
  put_enriched-Grows outcome rec t g keeps =
      elim (Bool-cases (is_acquired rec.acquisition_status)) [
        | inr e ↦
            subst (λ (x : Result EvidenceError Unit × Store). Grows s x.1) (sym (if-false _ _ e)) g
        | inl e ↦
            subst (λ (x : Result EvidenceError Unit × Store). Grows s x.1) (sym (if-true _ _ e))
              (then_grows g λ linked.
                put-keeps checks.source (λ r. r.id) (λ u. u.sources) set_sources (Grows t)
                  (enriched outcome rec) t (start t linked)
                  (source-write t (enriched outcome rec) linked keeps))
      ]

  put_registered-Grows :
      (outcome : Outcome) (m : Result EvidenceError Source)
      → ((rec : Source) → m ≡ ok rec → read rec.id s.sources ≡ none)
      → Grows s (put_registered checks outcome m s).1
  unfolding put_registered put_enriched
  put_registered-Grows outcome (raise e) fresh = start s l
  put_registered-Grows outcome (ok rec) fresh =
      let kept =
        put-keeps checks.source (λ r. r.id) (λ t. t.sources) set_sources (Grows s) rec s (start s l)
          (source-write s rec l (λ old h _. absurd (none-ne-parsed (sym (fresh rec refl) ∙ h)))) in
      continue-keeps (Grows s) (put_source checks rec s)
        (λ _ t.
          let (q, t') = put_enriched checks outcome rec t in continue q (λ _ u. (ok rec.id, u)) t')
        kept
        (λ a e.
          let t = (put_source checks rec s).1 in
          let again = put_enriched-Grows outcome rec t kept (λ old h is.
            let same = just_written rec.id rec s.sources old (
              ap (λ u. read rec.id u.sources)
                (sym (
                  put-ok checks.source (λ r. r.id) (λ u. u.sources) set_sources (Grows s) rec s a
                    e))
              ∙ h) in
            subst (λ r. source_is_acquired r ≡ true) (sym same) is) in
          continue-keeps (Grows s) (put_enriched checks outcome rec t) (λ _ u. (ok rec.id, u)) again
            (λ _ _. again))

  put_acquired-Grows :
      (digest : String) (outcome : Outcome) (m : Result EvidenceError Source)
      → ((rec : Source) → m ≡ ok rec → source_is_acquired rec ≡ true)
      → Grows s (put_acquired checks digest outcome m s).1
  unfolding put_acquired source_is_acquired
  put_acquired-Grows digest outcome (raise e) is = start s l
  put_acquired-Grows digest outcome (ok rec) is =
      let kept =
        put-keeps checks.source (λ r. r.id) (λ t. t.sources) set_sources (Grows s)
          (enriched outcome rec) s (start s l)
          (source-write s (enriched outcome rec) l (λ old h _. is rec refl)) in
      continue-keeps (Grows s) (put_source checks (enriched outcome rec) s) (λ _ t. (ok digest, t))
        kept (λ _ _. kept)

  pub acquire_source-Grows :
      (id digest : String) (size : ℕ) (raw : Option String) (retrieved_at : Option Stamp) (now : ℕ)
      (outcome : Outcome)
      → Grows s (acquire_source checks id digest size raw retrieved_at now outcome s).1
  unfolding acquire_source source_is_acquired
  acquire_source-Grows id digest size raw retrieved_at now outcome =
      put_acquired-Grows digest outcome _ λ rec h.
        let (source, _, _, made) =
          acquisition-acquired checks id digest size raw retrieved_at now s rec h in
        subst (λ r. source_is_acquired r ≡ true) made refl

  pub register_source-Grows :
      (id : String) (now : ℕ) (outcome : Outcome) (arg : NewSource)
      → read id s.sources ≡ none
      → Grows s (register_source checks id now outcome arg s).1
  unfolding register_source
  register_source-Grows id now outcome arg fresh =
      put_registered-Grows outcome _
        λ rec h. ap (λ i. read i s.sources) (source_record-id checks id now arg rec h) ∙ fresh

  pub register_segment-Grows :
      (id : String) (now : ℕ) (outcome : Outcome) (source_id text : String) (locator : Locator)
      → read id s.segments ≡ none
      → Grows s (register_segment checks id now outcome source_id text locator s).1
  unfolding register_segment
  register_segment-Grows id now outcome source_id text locator fresh =
      put_twice-keeps checks.segment (λ r. r.id) (λ t. t.segments) set_segments (Grows s) _ _ s
        (start s l) (λ rec h. first rec h)
        (λ rec h. then_grows (first rec h) λ linked.
          segment-write _ _ linked
            (λ old found.
              ap (λ r. r.source_id) (sym (just_written rec.id rec s.segments old found)))
            ((first rec h).extends.acquired rec.source_id
              (segment_record-Linked id now source_id text locator s rec h).0))
    where
      first :
          (rec : Segment)
          → segment_record id now source_id text locator s ≡ ok rec
          → Grows s (set_segments s (write rec.id rec s.segments))
      first rec h =
          let (link, same) = segment_record-Linked id now source_id text locator s rec h in
          segment-write s rec l
            (λ old found.
              absurd (none-ne-parsed (sym (ap (λ i. read i s.segments) same ∙ fresh) ∙ found)))
            link

  pub register_claim-Grows :
      (id : String) (now : ℕ) (outcome : Outcome) (arg : NewClaim)
      → Grows s (register_claim checks id now outcome arg s).1
  unfolding register_claim
  register_claim-Grows id now outcome arg =
      put_twice-keeps checks.claim (λ r. r.id) (λ t. t.claims) set_claims (Grows s) _ _ s
        (start s l) (λ rec h. claim-write s rec l (claim_record-Linked id now arg s rec h))
        (λ rec h.
          let first = claim-write s rec l (claim_record-Linked id now arg s rec h) in
          then_grows first λ linked.
            claim-write _ _ linked
              (ClaimLinked-Extends first.extends rec (claim_record-Linked id now arg s rec h)))

  pub register_entity-Grows :
      (id : String) (now : ℕ) (outcome : Outcome) (arg : NewEntity)
      → Grows s (register_entity checks id now outcome arg s).1
  unfolding register_entity
  register_entity-Grows id now outcome arg =
      put_twice-keeps checks.entity (λ r. r.id) (λ t. t.entities) set_entities (Grows s) _ _ s
        (start s l) (λ rec h. entity-write s rec l (entity_record-Linked id now arg s rec h))
        (λ rec h.
          let first = entity-write s rec l (entity_record-Linked id now arg s rec h) in
          then_grows first λ linked.
            entity-write _ _ linked
              (EntityLinked-Extends first.extends rec (entity_record-Linked id now arg s rec h)))

  pub register_gap-Grows :
      (id : String) (now : ℕ) (description priority status : String)
      → Grows s (register_gap checks id now description priority status s).1
  unfolding register_gap
  register_gap-Grows id now description priority status =
      put_once-keeps checks.gap (λ r. r.id) (λ t. t.gaps) set_gaps (Grows s) _ s (start s l)
        (λ rec h. gap-write s _ l)

  pub register_conflict-Grows :
      (id : String) (now : ℕ) (claim_ids : List String) (severity status : String)
      → Grows s (register_conflict checks id now claim_ids severity status s).1
  unfolding register_conflict
  register_conflict-Grows id now claim_ids severity status =
      put_once-keeps checks.conflict (λ r. r.id) (λ t. t.conflicts) set_conflicts (Grows s) _ s
        (start s l)
        (λ rec h.
          conflict-write s rec l (conflict_record-Linked id now claim_ids severity status s rec h))

  pub register_evidence_edge-Grows :
      (id : String) (now : ℕ) (arg : NewEdge)
      → Grows s (register_evidence_edge checks id now arg s).1
  unfolding register_evidence_edge
  register_evidence_edge-Grows id now arg =
      put_once-keeps checks.edge (λ r. r.id) (λ t. t.edges) set_edges (Grows s) _ s (start s l)
        (λ rec h. edge-write s rec l (edge_record-Linked id now arg s rec h))
