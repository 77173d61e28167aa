-- ===== src/Evidence/Lookup.antt =====
-- `assert_record_exists` of evidence/__init__.py, for any type of exceptions.
use polder_research_pipeline.Base.{
  String, not, Option, none, some, ◌==◌, if◌then◌else◌, is_record_id, ◌≡◌, ap, ◌∙◌, sym, eq_iff,
  arith, inl, inr, if-elim,
}
use polder_research_pipeline.Base.Result.{Result, ok, raise, refuse, ◌>>◌, passed, ok_injective}
use polder_research_pipeline.Base.Dir.{File, damaged, parsed, Dir, read}

module _ {E : Type 0} (bad_id missing unreadable mismatch : E) {R : Type 0} (prefix : String)
    (id_of : R → String) where
  unfoldable pub existing : String → Option (File R) → Result E R
  existing id none = raise missing
  existing id (some damaged) = raise unreadable
  existing id (some (parsed rec)) = if id_of rec == id then ok rec else raise mismatch

  -- The prefix is a literal, and holds its underscore.
  unfoldable pub assert_record_exists : String → Dir R → Result E R
  unfolding existing read
  assert_record_exists id d = do
    refuse (not (is_record_id prefix id)) bad_id
    existing id (read id d)

  existing-eq-ok :
      (id : String) (file : Option (File R)) (rec : R)
      → existing id file ≡ ok rec
      → (file ≡ some (parsed rec)) × (id_of rec ≡ id)
  unfolding existing
  existing-eq-ok id none rec h = absurd (ground arith)
  existing-eq-ok id (some damaged) rec h = absurd (ground arith)
  existing-eq-ok id (some (parsed r)) rec h = elim (if-elim (id_of r == id) _ _ h) [
    | inl (e, same) ↦ (
      ap (λ x. some (parsed x)) (ok_injective same),
      sym (ap id_of (ok_injective same)) ∙ (eq_iff (id_of r) id).0 e,
    )
    | inr (_, other) ↦ absurd (ground arith)
  ]

  -- what it gives stands under the id
  pub assert_record_exists-read :
      (id : String) (d : Dir R) (rec : R)
      → assert_record_exists id d ≡ ok rec
      → (read id d ≡ some (parsed rec)) × (id_of rec ≡ id)
  unfolding assert_record_exists
  assert_record_exists-read id d rec h =
      passed (not (is_record_id prefix id)) bad_id _ h λ _ h1. existing-eq-ok id (read id d) rec h1
