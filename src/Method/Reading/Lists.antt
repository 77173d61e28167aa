-- ===== src/Method/Reading/Lists.antt =====
-- `_records` gives the records of the run, in the order of their files.
use polder_research_pipeline.Base.{
  String, ◌≡◌, sym, ap, ◌∙◌, Bool, not, List, [], ◌∷◌, ◌==◌, arith, if◌then◌else◌, if-as-elim,
  select,
}
use polder_research_pipeline.Base.Result.{ok, after, refuse-then, ok_injective}
use polder_research_pipeline.Base.Dir.{damaged, parsed, Dir, contents}
use polder_research_pipeline.Method.Reading.{records}

module _ {R : Type 0} (valid : R → Bool) (id_of : R → String) (run_of : R → String) where
  pub records-eq-ok :
      (run_id : String) (d : Dir R) (xs : List R)
      → records valid id_of run_of run_id d ≡ ok xs
      → xs ≡ select (λ r. run_of r == run_id) (contents d)
  unfolding records
  records-eq-ok run_id [] xs h = sym (ok_injective h)
  records-eq-ok run_id ((stem, damaged) ∷ d) xs h = absurd (ground arith)
  records-eq-ok run_id ((stem, parsed r) ∷ d) xs h =
      let (_, h2) = refuse-then (not (id_of r == stem)) _ _ h in
      let (_, h3) = refuse-then (not (valid r)) _ _ h2 in
      after (records valid id_of run_of run_id d) _ h3 λ rest e last.
        let tail = records-eq-ok run_id d rest e in
        sym (ok_injective last)
        ∙ ap (λ t. if run_of r == run_id then r ∷ t else t) tail
        ∙ if-as-elim (run_of r == run_id) _ _
