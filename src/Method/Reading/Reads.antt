-- ===== src/Method/Reading/Reads.antt =====
-- What a read that succeeds says of the directory, and the other way round.
use polder_research_pipeline.Base.{
  sym, String, ◌≡◌, ap, Bool, true, false, Option, none, some, ◌==◌, ==_self, is_record_id, arith,
  eq_iff, inl, inr, ◌∙◌, Bool-cases, if-true,
}
use polder_research_pipeline.Base.Result.{after, refuse-ok, ok}
use polder_research_pipeline.Base.Dir.{File, damaged, parsed, Dir, read, write, read-write}
use polder_research_pipeline.Method.Records.{
  source_not_acquired, Source, Run, Protocol, Store, Checks,
}
use polder_research_pipeline.Method.Reading.{
  source_at, is_unacquired, require_acquired_source, checked, record_at, content_hash, is_text,
  run_at, protocol_at, bound_protocol, frozen_for_run,
}

pub is_text-eq : (o : Option String) (t : String) → is_text o t ≡ true → o ≡ some t
is_text-eq none t h = absurd (ground arith)
is_text-eq (some v) t h = ap some ((eq_iff v t).0 h)

module _ {R : Type 0} (prefix : String) (valid : R → Bool) (id_of : R → String) where
  checked-eq-ok :
      (id : String) (file : Option (File R)) (rec : R)
      → checked prefix valid id_of id file ≡ ok rec
      → (file ≡ some (parsed rec)) × (valid rec ≡ true) × (id_of rec ≡ id)
  unfolding checked
  checked-eq-ok id none rec h = absurd (ground arith)
  checked-eq-ok id (some damaged) rec h = absurd (ground arith)
  checked-eq-ok id (some (parsed r)) rec h = ground (arith, eq_iff (id_of r) id)

  pub record_at-eq-ok :
      (id : String) (d : Dir R) (rec : R)
      → record_at prefix valid id_of id d ≡ ok rec
      → (is_record_id prefix id ≡ true)
        × (read id d ≡ some (parsed rec))
        × (valid rec ≡ true)
        × (id_of rec ≡ id)
  unfolding record_at
  record_at-eq-ok id d rec h = elim (Bool-cases (is_record_id prefix id)) [
    | inl e ↦ let (a, b, c) = checked-eq-ok id (read id d) rec (ground arith) in (e, a, b, c)
    | inr e ↦ absurd (ground arith)
  ]

  pub record_at-read :
      (id : String) (d : Dir R) (rec : R)
      → is_record_id prefix id ≡ true
      → read id d ≡ some (parsed rec)
      → valid rec ≡ true
      → id_of rec ≡ id
      → record_at prefix valid id_of id d ≡ ok rec
  unfolding record_at checked
  record_at-read id d rec a b c e = simp (a, b, c, e, ==_self id)

  -- a record that was there, after a valid one has been written over it
  pub record_at-write :
      (id : String) (d : Dir R) (rec rec' : R)
      → record_at prefix valid id_of id d ≡ ok rec
      → valid rec' ≡ true
      → id_of rec' ≡ id_of rec
      → record_at prefix valid id_of id (write (id_of rec) rec' d) ≡ ok rec'
  record_at-write id d rec rec' h v e =
      let (a, b, c, same) = record_at-eq-ok id d rec h in
      record_at-read id (write (id_of rec) rec' d) rec' a
        (read-write (id_of rec) id rec' d ∙ if-true _ _ ((eq_iff _ _).1 same)) v (e ∙ same)

pub require_acquired_source-eq-ok :
    (id : String) (s : Store) (source : Source)
    → require_acquired_source id s ≡ ok source
    → (source_at id s ≡ ok source) × (is_unacquired source ≡ false)
unfolding require_acquired_source
require_acquired_source-eq-ok id s source h = after (source_at id s) _ h λ found e h1.
    let (acquired, same) = refuse-ok (is_unacquired found) source_not_acquired found h1 in
    (e ∙ ap ok same, sym (ap is_unacquired same) ∙ acquired)

module _ (checks : Checks) where
  -- a run and its protocol that pass all the checks
  pub frozen_for_run-read :
      (run_id protocol_id digest : String) (s : Store) (run : Run) (protocol : Protocol)
      → run_at checks run_id s ≡ ok run
      → run.research_method ≡ some "systematic_evidence_review"
      → run.protocol_id ≡ some protocol_id
      → (protocol_id == "") ≡ false
      → protocol_at checks protocol_id s ≡ ok protocol
      → protocol.id ≡ protocol_id
      → protocol.run_id ≡ run_id
      → protocol.status ≡ "frozen"
      → protocol.content_sha256 ≡ some digest
      → run.protocol_sha256 ≡ some digest
      → content_hash checks protocol ≡ digest
      → frozen_for_run checks run_id false s ≡ ok (run, protocol)
  unfolding frozen_for_run bound_protocol
  frozen_for_run-read run_id protocol_id digest s run protocol a b c d e f g h i j k =
      simp (a, b, c, d, e, f, g, h, i, j, k, ==_self run_id, ==_self protocol_id, ==_self digest)
