-- ===== src/Evidence/Integrity/Writes.antt =====
-- One write of evidence/__init__.py: it keeps every link, and loses nothing that is referred to.
use polder_research_pipeline.Base.{
  String, ◌≡◌, refl, sym, ◌∙◌, ap, subst, inl, inr, Bool, true, some, arith,
}
use polder_research_pipeline.Base.Result.{Result, ok, raise}
use polder_research_pipeline.Base.Exec.{Exec, continue}
use polder_research_pipeline.Base.Dir.{parsed, Dir, read, write, write_atomic-elim}
use polder_research_pipeline.Evidence.Records.{
  EvidenceError, Source, Segment, Claim, Entity, Gap, Conflict, Edge, Store,
}
use polder_research_pipeline.Evidence.Sources.{source_is_acquired, set_sources}
use polder_research_pipeline.Evidence.Persist.{persisted, put, put_once, put_twice}
use polder_research_pipeline.Evidence.Register.{
  set_segments, set_claims, set_entities, set_conflicts, set_edges, set_gaps,
}
use polder_research_pipeline.Evidence.Integrity.{
  IsAcquired, IsSource, IsClaim, IsSegmentOf, SegmentLinked, ClaimLinked, EntityLinked,
  ConflictLinked, EdgeLinked, IsLinked, Holds, Extends, ClaimLinked-Extends, EntityLinked-Extends,
  ConflictLinked-Extends, EdgeLinked-Extends, written_or_old, Holds-write,
}

-- All records are linked, and nothing of the first state that may be referred to is lost.
pub record Grows (s t : Store) : Type 0 where
  pub linked : IsLinked t
  pub extends : Extends s t

pub Extends-trans : {s t u : Store} → Extends s t → Extends t u → Extends s u
Extends-trans f g = record {
  acquired = λ id h. g.acquired id (f.acquired id h);
  source = λ id h. g.source id (f.source id h);
  claim = λ id h. g.claim id (f.claim id h);
  segment = λ source_id id h. g.segment source_id id (f.segment source_id id h);
}

-- The links of all records hold in any state that has the same records and loses nothing.
carried :
    {s t : Store}
    → IsLinked s
    → Extends s t
    → t.segments ≡ s.segments
    → t.claims ≡ s.claims
    → t.entities ≡ s.entities
    → t.conflicts ≡ s.conflicts
    → t.edges ≡ s.edges
    → Grows s t
carried {s} {t} l e es ec een eco ee = record {
  linked = record {
    segments = λ id rec h. e.acquired rec.source_id (l.segments id rec (ap (read id) (sym es) ∙ h));
    claims = λ id rec h. ClaimLinked-Extends e rec (l.claims id rec (ap (read id) (sym ec) ∙ h));
    entities =
        λ id rec h. EntityLinked-Extends e rec (l.entities id rec (ap (read id) (sym een) ∙ h));
    conflicts =
        λ id rec h. ConflictLinked-Extends e rec (l.conflicts id rec (ap (read id) (sym eco) ∙ h));
    edges = λ id rec h. EdgeLinked-Extends e rec (l.edges id rec (ap (read id) (sym ee) ∙ h));
  };
  extends = e;
}

-- a source under its id, which stays acquired
pub source-write :
    (s : Store) (rec : Source)
    → IsLinked s
    → ((old : Source)
        → read rec.id s.sources ≡ some (parsed old)
        → source_is_acquired old ≡ true
        → source_is_acquired rec ≡ true)
    → Grows s (set_sources s (write rec.id rec s.sources))
unfolding IsAcquired IsSource IsClaim IsSegmentOf
source-write s rec l keeps =
    carried l
      (record {
        acquired = Holds-write (λ r. source_is_acquired r ≡ true) rec.id rec s.sources keeps;
        source = Holds-write (λ r. Unit {0}) rec.id rec s.sources (λ old h u. tt);
        claim = λ id h. h;
        segment = λ source_id id h. h;
      })
      refl refl refl refl refl

-- a segment under its id, which stays one of the same source
pub segment-write :
    (s : Store) (rec : Segment)
    → IsLinked s
    → ((old : Segment) → read rec.id s.segments ≡ some (parsed old) → old.source_id ≡ rec.source_id)
    → SegmentLinked s rec
    → Grows s (set_segments s (write rec.id rec s.segments))
unfolding IsAcquired IsSource IsClaim IsSegmentOf
segment-write s rec l same link = record {
  linked = record {
    segments = written_or_old (SegmentLinked s) rec.id rec s.segments link l.segments;
    claims = l.claims;
    entities = l.entities;
    conflicts = l.conflicts;
    edges = λ id e h. EdgeLinked-Extends extends e (l.edges id e h);
  };
  extends = extends;
}
  where
    extends : Extends s (set_segments s (write rec.id rec s.segments))
    extends = record {
      acquired = λ id h. h;
      source = λ id h. h;
      claim = λ id h. h;
      segment = λ source_id.
          Holds-write (λ r. r.source_id ≡ source_id) rec.id rec s.segments
            (λ old h e. sym (same old h) ∙ e);
    }

pub claim-write :
    (s : Store) (rec : Claim)
    → IsLinked s
    → ClaimLinked s rec
    → Grows s (set_claims s (write rec.id rec s.claims))
unfolding IsAcquired IsSource IsClaim IsSegmentOf
claim-write s rec l link = record {
  linked = record {
    segments = l.segments;
    claims = written_or_old (ClaimLinked s) rec.id rec s.claims link l.claims;
    entities = l.entities;
    conflicts = λ id c h. ConflictLinked-Extends extends c (l.conflicts id c h);
    edges = λ id e h. EdgeLinked-Extends extends e (l.edges id e h);
  };
  extends = extends;
}
  where
    extends : Extends s (set_claims s (write rec.id rec s.claims))
    extends = record {
      acquired = λ id h. h;
      source = λ id h. h;
      claim = Holds-write (λ r. Unit {0}) rec.id rec s.claims (λ old h u. tt);
      segment = λ source_id id h. h;
    }

unrelated :
    {s t : Store}
    → t.sources ≡ s.sources
    → t.claims ≡ s.claims
    → t.segments ≡ s.segments
    → Extends s t
unfolding IsAcquired IsSource IsClaim IsSegmentOf Holds
unrelated {s} {t} es ec eg = record {
  acquired = λ id h. (h.0, ap (read id) es ∙ h.1, h.2);
  source = λ id h. (h.0, ap (read id) es ∙ h.1, h.2);
  claim = λ id h. (h.0, ap (read id) ec ∙ h.1, h.2);
  segment = λ source_id id h. (h.0, ap (read id) eg ∙ h.1, h.2);
}

pub entity-write :
    (s : Store) (rec : Entity)
    → IsLinked s
    → EntityLinked s rec
    → Grows s (set_entities s (write rec.id rec s.entities))
unfolding IsAcquired IsSource IsClaim IsSegmentOf
entity-write s rec l link = record {
  linked = record {
    segments = l.segments;
    claims = l.claims;
    entities = written_or_old (EntityLinked s) rec.id rec s.entities link l.entities;
    conflicts = l.conflicts;
    edges = λ id e h. EdgeLinked-Extends same e (l.edges id e h);
  };
  extends = same;
}
  where
    same : Extends s (set_entities s (write rec.id rec s.entities))
    same = unrelated refl refl refl

pub gap-write : (s : Store) (files : Dir Gap) → IsLinked s → Grows s (set_gaps s files)
unfolding IsAcquired IsSource IsClaim IsSegmentOf
gap-write s files l = carried l (unrelated refl refl refl) refl refl refl refl refl

pub conflict-write :
    (s : Store) (rec : Conflict)
    → IsLinked s
    → ConflictLinked s rec
    → Grows s (set_conflicts s (write rec.id rec s.conflicts))
unfolding IsAcquired IsSource IsClaim IsSegmentOf
conflict-write s rec l link = record {
  linked = record {
    segments = l.segments;
    claims = l.claims;
    entities = l.entities;
    conflicts = written_or_old (ConflictLinked s) rec.id rec s.conflicts link l.conflicts;
    edges = λ id e h. EdgeLinked-Extends same e (l.edges id e h);
  };
  extends = same;
}
  where
    same : Extends s (set_conflicts s (write rec.id rec s.conflicts))
    same = unrelated refl refl refl

pub edge-write :
    (s : Store) (rec : Edge)
    → IsLinked s
    → EdgeLinked s rec
    → Grows s (set_edges s (write rec.id rec s.edges))
unfolding IsAcquired IsSource IsClaim IsSegmentOf
edge-write s rec l link = record {
  linked = record {
    segments = l.segments;
    claims = l.claims;
    entities = l.entities;
    conflicts = l.conflicts;
    edges =
        written_or_old (λ e. EdgeLinked (set_edges s (write rec.id rec s.edges)) e) rec.id rec
          s.edges (EdgeLinked-Extends same rec link)
          (λ id e h. EdgeLinked-Extends same e (l.edges id e h));
  };
  extends = same;
}
  where
    same : Extends s (set_edges s (write rec.id rec s.edges))
    same = unrelated refl refl refl

pub continue-keeps :
    {E S A B : Type 0} (I : S → Type 0) (r : Result E A × S) (f : A → Exec E S B)
    → I r.1
    → ((a : A) → r ≡ (ok a, r.1) → I (f a r.1).1)
    → I (continue r.0 f r.1).1
continue-keeps I (raise e, s) f now later = now
continue-keeps I (ok a, s) f now later = later a refl

module _ {R : Type 0} (valid : R → Bool) (id_of : R → String) (files : Store → Dir R)
    (set : Store → Dir R → Store) (I : Store → Type 0) where
  -- What holds before one write and after it holds after `put`.
  pub put-keeps :
      (rec : R) (s : Store)
      → I s
      → I (set s (write (id_of rec) rec (files s)))
      → I (put valid id_of files set rec s).1
  unfolding put persisted
  put-keeps rec s before after =
      elim (write_atomic-elim valid (id_of rec) rec (files s) (λ d. (persisted set s d).1) refl) [
        | inl (_, e) ↦ subst I e after
        | inr (_, e) ↦ subst I e before
      ]

  pub put-ok :
      (rec : R) (s : Store) (a : Unit {0})
      → put valid id_of files set rec s ≡ (ok a, (put valid id_of files set rec s).1)
      → (put valid id_of files set rec s).1 ≡ set s (write (id_of rec) rec (files s))
  unfolding put persisted
  put-ok rec s a h =
      elim (write_atomic-elim valid (id_of rec) rec (files s) (persisted set s) refl) [
        | inl (_, e) ↦ sym (ap (λ x. x.1) e)
        | inr (_, e) ↦ absurd (ground (arith, ap (λ x. x.0) (e ∙ h)))
      ]

  pub put_once-keeps :
      (m : Result EvidenceError R) (s : Store)
      → I s
      → ((rec : R) → m ≡ ok rec → I (set s (write (id_of rec) rec (files s))))
      → I (put_once valid id_of files set m s).1
  unfolding put_once
  put_once-keeps (raise e) s before after = before
  put_once-keeps (ok rec) s before after =
      let kept = put-keeps rec s before (after rec refl) in
      continue-keeps I (put valid id_of files set rec s) (λ _ t. (ok (id_of rec), t)) kept
        (λ a e. kept)

  -- and over the second write too
  pub put_twice-keeps :
      (classified : R → R) (m : Result EvidenceError R) (s : Store)
      → I s
      → ((rec : R) → m ≡ ok rec → I (set s (write (id_of rec) rec (files s))))
      → ((rec : R)
          → m ≡ ok rec
          → let t = set s (write (id_of rec) rec (files s)) in
            I (set t (write (id_of (classified rec)) (classified rec) (files t))))
      → I (put_twice valid id_of files set classified m s).1
  unfolding put_twice
  put_twice-keeps classified (raise e) s before after twice = before
  put_twice-keeps classified (ok rec) s before after twice =
      let kept = put-keeps rec s before (after rec refl) in
      continue-keeps I (put valid id_of files set rec s)
        (λ _ t.
          let (q, t') = put valid id_of files set (classified rec) t in
          continue q (λ _ u. (ok (id_of rec), u)) t')
        kept
        (λ a e.
          let t = (put valid id_of files set rec s).1 in
          let again = put-keeps (classified rec) t kept (
            subst (λ u. I (set u (write (id_of (classified rec)) (classified rec) (files u))))
              (sym (put-ok rec s a e)) (twice rec refl)) in
          continue-keeps I (put valid id_of files set (classified rec) t)
            (λ _ u. (ok (id_of rec), u)) again (λ _ _. again))
