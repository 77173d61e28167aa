-- ===== src/Base/Lists.antt =====
-- Lists with native lengths, and Python's list and set operations on texts.
use Prim.Native.Nat.{ℕ, Ordering, suc, ◌+◌, ◌≤◌}
use Prim.Native.String.{String, compare}
use mathlib.Core.Path.{◌≡◌, refl, sym, ap, ◌∙◌, subst}
use mathlib.Core.Logic.{inl, inr}
use mathlib.Core.Bool.{Bool, true, false, ◌&&◌, ◌||◌, not}
use mathlib.Core.Option.{Option, none, some}
use mathlib.Core.List.{List, [], ◌∷◌, ◌++◌}
use native.Mathlib.Omega.{arith}
use text.Mathlib.Text.{◌==◌}
use polder_research_pipeline.Base.Tests.{Bool-cases}

module _ {ℓ} {A : Type ℓ} where
  abbrev pub length : List A → ℕ
  length [] = 0
  length (x ∷ xs) = suc (length xs)

  -- `[x for x in xs if p(x)]`
  abbrev pub select : (A → Bool) → List A → List A
  select p [] = []
  select p (x ∷ xs) = elim (p x) [ true ↦ x ∷ select p xs | false ↦ select p xs ]

  -- `any(p(x) for x in xs)`
  abbrev pub any : (A → Bool) → List A → Bool
  any p [] = false
  any p (x ∷ xs) = p x || any p xs

  -- `all(p(x) for x in xs)`
  abbrev pub all : (A → Bool) → List A → Bool
  all p [] = true
  all p (x ∷ xs) = p x && all p xs

  -- `next((x for x in xs if p(x)), None)`
  abbrev pub first : (A → Bool) → List A → Option A
  first p [] = none
  first p (x ∷ xs) = elim (p x) [ true ↦ some x | false ↦ first p xs ]

  -- `xs[-1]`, where there is one
  abbrev pub last : List A → Option A
  last [] = none
  last (x ∷ []) = some x
  last (x ∷ y ∷ xs) = last (y ∷ xs)

  pub length-append : (xs ys : List A) → length (xs ++ ys) ≡ length xs + length ys
  length-append [] ys = omega arith
  length-append (x ∷ xs) ys = omega (arith, length-append xs ys)

  pub select-append :
      (p : A → Bool) (xs ys : List A) → select p (xs ++ ys) ≡ select p xs ++ select p ys
  select-append p [] ys = refl
  select-append p (x ∷ xs) ys = ground (arith, select-append p xs ys)

  pub select-kept :
      (p : A → Bool) (xs : List A) (x : A)
      → p x ≡ true
      → select p (xs ++ x ∷ []) ≡ select p xs ++ x ∷ []
  select-kept p [] x h = ground arith
  select-kept p (y ∷ xs) x h = ground (arith, select-kept p xs x h)

  pub select-left :
      (p : A → Bool) (xs : List A) (x : A) → p x ≡ false → select p (xs ++ x ∷ []) ≡ select p xs
  select-left p [] x h = ground arith
  select-left p (y ∷ xs) x h = ground (arith, select-left p xs x h)

  pub any-select :
      (r q p : A → Bool) (xs : List A)
      → ((x : A) → p x ≡ (r x && q x))
      → any q (select r xs) ≡ false
      → select p xs ≡ []
  any-select r q p [] same h = refl
  any-select r q p (x ∷ xs) same h = ground (arith, same x, any-select r q p xs same)

  pub any-none : (p : A → Bool) (xs : List A) → any p xs ≡ false → select p xs ≡ []
  any-none p [] h = refl
  any-none p (x ∷ xs) h = ground (arith, any-none p xs)

  pub any-append : (p : A → Bool) (xs : List A) (x : A) → any p (xs ++ x ∷ []) ≡ (any p xs || p x)
  any-append p [] x = ground arith
  any-append p (y ∷ xs) x = ground (arith, any-append p xs x)

  pub any-both :
      (r q p : A → Bool) (xs : List A)
      → ((x : A) → p x ≡ (r x && q x))
      → any q (select r xs) ≡ any p xs
  any-both r q p [] same = refl
  any-both r q p (x ∷ xs) same = ground (arith, same x, any-both r q p xs same)

  pub first-any :
      (p : A → Bool) (xs : List A)
      → (first p xs ≡ none → any p xs ≡ false) × ((x : A) → first p xs ≡ some x → any p xs ≡ true)
  first-any p [] = (λ _. refl, λ x h. absurd (ground arith))
  first-any p (x ∷ xs) =
      elim (p x)
        as (λ b.
          (elim b [ true ↦ some x | false ↦ first p xs ] ≡ none → (b || any p xs) ≡ false)
          × ((y : A)
              → elim b [ true ↦ some x | false ↦ first p xs ] ≡ some y
              → (b || any p xs) ≡ true)) [
                | true ↦ (λ h. absurd (ground arith), λ _ _. refl)
                | false ↦ first-any p xs
              ]

  pub any-pos : (p : A → Bool) (xs : List A) → any p xs ≡ true → 1 ≤ length (select p xs)
  any-pos p [] h = absurd (ground arith)
  any-pos p (x ∷ xs) h = ground (arith, any-pos p xs)

  -- one more element, which is the first of its kind if it is of the kind
  pub select_once :
      (p : A → Bool) (xs : List A) (x : A)
      → length (select p xs) ≤ 1
      → (p x ≡ true → select p xs ≡ [])
      → length (select p (xs ++ x ∷ [])) ≤ 1
  select_once p xs x h new = elim (Bool-cases (p x)) [
    | inl e ↦
        let kept = select-kept p xs x e ∙ ap (λ t. t ++ x ∷ []) (new e) in
        subst (λ t. length t ≤ 1) (sym kept) (omega arith)
    | inr e ↦ subst (λ t. length t ≤ 1) (sym (select-left p xs x e)) h
  ]

-- `s in xs`
abbrev pub contains : String → List String → Bool
contains s [] = false
contains s (x ∷ xs) = x == s || contains s xs

-- `set(xs)`, each text once; the order is not one of the source, which asks what is in the set and how
-- many there are.
abbrev pub distinct : List String → List String
distinct [] = []
distinct (x ∷ xs) = elim (contains x xs) [ true ↦ distinct xs | false ↦ x ∷ distinct xs ]

-- `sorted(xs)`
abbrev pub insert_sorted : String → List String → List String
insert_sorted x [] = x ∷ []
insert_sorted x (y ∷ ys) =
    let rest = insert_sorted x ys in
    elim (compare x y) [
      | Ordering.lt ↦ x ∷ y ∷ ys
      | Ordering.eq ↦ x ∷ y ∷ ys
      | Ordering.gt ↦ y ∷ rest
    ]

abbrev pub sorted : List String → List String
sorted [] = []
sorted (x ∷ xs) = insert_sorted x (sorted xs)

-- `list(dict.fromkeys(xs))`: of equal texts the first stays.
abbrev pub from_keys : List String → List String
from_keys [] = []
from_keys (x ∷ xs) = x ∷ select (λ y. not (y == x)) (from_keys xs)
