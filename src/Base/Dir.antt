-- ===== src/Base/Dir.antt =====
-- A directory of JSON records under `.research`: each file's stem and what reading it gives.
-- The order of the list is the order in which the file system lists the files.
use Prim.Native.String.{String}
use mathlib.Core.Path.{◌≡◌, refl, sym, ap, ◌∙◌}
use mathlib.Core.Logic.{◌⊎◌, inl, inr}
use mathlib.Core.Bool.{Bool, true, false}
use mathlib.Core.Option.{Option, none, some}
use mathlib.Core.List.{List, [], ◌∷◌, ◌++◌}
use native.Mathlib.Omega.{arith}
use text.Mathlib.TextEquality.{eq_iff}
use polder_research_pipeline.Base.Tests.{◌==◌, if◌then◌else◌, Bool-cases}

-- A file that cannot be read or parsed, or the record in it.
pub data File (R : Type 0) : Type 0 where
  damaged : File R
  parsed : R → File R

abbrev pub Dir : Type 0 → Type 0
Dir R = List (String × File R)

module _ {R : Type 0} where
  -- `path.is_file()` and reading it
  unfoldable pub read : String → Dir R → Option (File R)
  read k [] = none
  read k ((j, v) ∷ d) = if j == k then some v else read k d

  -- `os.replace` onto the path: a new file, or another content of the old one
  unfoldable pub write : String → R → Dir R → Dir R
  write k r [] = (k, parsed r) ∷ []
  write k r ((j, v) ∷ d) = if j == k then (k, parsed r) ∷ d else (j, v) ∷ write k r d

  -- the records of the files that can be read
  abbrev pub contents : Dir R → List R
  contents [] = []
  contents ((k, damaged) ∷ d) = contents d
  contents ((k, parsed r) ∷ d) = r ∷ contents d

  -- a new file stands last
  pub contents-write :
      (k : String) (r : R) (d : Dir R)
      → read k d ≡ none
      → contents (write k r d) ≡ contents d ++ r ∷ []
  unfolding read write
  contents-write k r [] h = refl
  contents-write k r ((j, damaged) ∷ d) h = ground (arith, contents-write k r d)
  contents-write k r ((j, parsed x) ∷ d) h = ground (arith, contents-write k r d)

  pub read-write :
      (k j : String) (r : R) (d : Dir R)
      → read j (write k r d) ≡ (if k == j then some (parsed r) else read j d)
  unfolding read write
  read-write k j r [] = refl
  read-write k j r ((i, v) ∷ d) =
      ground (arith, eq_iff k j, eq_iff i k, eq_iff i j, read-write k j r d)

  -- the same content again changes nothing
  pub write-write : (k : String) (r : R) (d : Dir R) → write k r (write k r d) ≡ write k r d
  unfolding write
  write-write k r [] = ground (arith, eq_iff k k)
  write-write k r ((i, v) ∷ d) = ground (arith, eq_iff i k, eq_iff k k, write-write k r d)

  -- `write_atomic` with a schema: nothing is written unless the record is valid. `none` is the
  -- SchemaError.
  unfoldable pub write_atomic : (R → Bool) → String → R → Dir R → Option (Dir R)
  unfolding write
  write_atomic valid k r d = if valid r then some (write k r d) else none

  pub write_atomic-valid :
      (valid : R → Bool) (k : String) (r : R) (d : Dir R)
      → valid r ≡ true
      → write_atomic valid k r d ≡ some (write k r d)
  unfolding write_atomic
  write_atomic-valid valid k r d h = rw (h) refl

  pub write_atomic-invalid :
      (valid : R → Bool) (k : String) (r : R) (d : Dir R)
      → valid r ≡ false
      → write_atomic valid k r d ≡ none
  unfolding write_atomic
  write_atomic-invalid valid k r d h = rw (h) refl

  -- an operation that continues with what `write_atomic` wrote, or refuses
  pub write_atomic-elim :
      {O : Type 0} (valid : R → Bool) (k : String) (r : R) (d : Dir R) (f : Option (Dir R) → O)
      {o : O}
      → f (write_atomic valid k r d) ≡ o
      → ((valid r ≡ true) × (f (some (write k r d)) ≡ o)) ⊎ ((valid r ≡ false) × (f none ≡ o))
  write_atomic-elim valid k r d f h = elim (Bool-cases (valid r)) [
    | inl e ↦ inl (e, sym (ap f (write_atomic-valid valid k r d e)) ∙ h)
    | inr e ↦ inr (e, sym (ap f (write_atomic-invalid valid k r d e)) ∙ h)
  ]
