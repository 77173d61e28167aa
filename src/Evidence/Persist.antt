-- ===== src/Evidence/Persist.antt =====
-- `_persist` of evidence/__init__.py, once, or before and after the classification of a record.
use polder_research_pipeline.Base.{String, Bool, Option, none, some}
use polder_research_pipeline.Base.Result.{Result, ok, raise}
use polder_research_pipeline.Base.Exec.{Exec, continue}
use polder_research_pipeline.Base.Dir.{Dir, write_atomic}
use polder_research_pipeline.Evidence.Records.{EvidenceError, invalid, Store}

-- `_persist` to one of the directories
unfoldable pub persisted :
    {R : Type 0}
    → (Store → Dir R → Store)
    → Store
    → Option (Dir R)
    → Result EvidenceError Unit × Store
persisted set s none = (raise invalid, s)
persisted set s (some files) = (ok tt, set s files)

module _ {R : Type 0} (valid : R → Bool) (id_of : R → String) (files : Store → Dir R)
    (set : Store → Dir R → Store) where
  -- one write
  unfoldable pub put : R → Exec EvidenceError Store Unit
  unfolding persisted
  put rec s = persisted set s (write_atomic valid (id_of rec) rec (files s))

  -- the record that the checks have let through, or their exception
  unfoldable pub put_once : Result EvidenceError R → Exec EvidenceError Store String
  put_once (raise e) s = (raise e, s)
  put_once (ok rec) s = let (r, s') = put rec s in continue r (λ _ t. (ok (id_of rec), t)) s'

  -- and once more when it has been classified
  unfoldable pub put_twice : (R → R) → Result EvidenceError R → Exec EvidenceError Store String
  put_twice classified (raise e) s = (raise e, s)
  put_twice classified (ok rec) s =
      let (r, s') = put rec s in
      continue r
        (λ _ t. let (q, t') = put (classified rec) t in continue q (λ _ u. (ok (id_of rec), u)) t')
        s'
