-- ===== src/Base/Sets.antt =====
-- `contains`, `distinct` and `sorted` on lists of texts.
use Prim.Native.Nat.{Ordering, ◌+◌, ◌≤◌}
use Prim.Native.String.{String, compare}
use mathlib.Core.Path.{◌≡◌, refl, sym, ◌∙◌, subst}
use mathlib.Core.Logic.{inl, inr}
use mathlib.Core.Bool.{true, false, ◌||◌}
use mathlib.Core.List.{List, [], ◌∷◌, ◌++◌}
use native.Mathlib.Omega.{arith}
use text.Mathlib.Text.{◌==◌}
use text.Mathlib.TextEquality.{eq_iff}
use polder_research_pipeline.Base.Tests.{if◌then◌else◌, Bool-cases}
use polder_research_pipeline.Base.Lists.{length, contains, distinct, insert_sorted, sorted}

abbrev pub All {ℓ κ} : {A : Type ℓ} → (A → Type κ) → List A → Type κ
All P [] = Unit
All P (x ∷ xs) = P x × All P xs

pub All-map :
    {A : Type 0} {P Q : A → Type 0} → ((x : A) → P x → Q x) → (xs : List A) → All P xs → All Q xs
All-map f [] all = tt
All-map f (x ∷ xs) (p, all) = (f x p, All-map f xs all)

pub contains-append :
    (s : String) (xs ys : List String) → contains s (xs ++ ys) ≡ (contains s xs || contains s ys)
contains-append s [] ys = refl
contains-append s (x ∷ xs) ys = ground (arith, contains-append s xs ys)

-- one more text is one more distinct text, unless it was there
pub length-distinct-snoc :
    (xs : List String) (y : String)
    → length (distinct (xs ++ y ∷ [])) ≡ length (distinct xs) + (if contains y xs then 0 else 1)
length-distinct-snoc [] y = refl
length-distinct-snoc (x ∷ xs) y =
    ground (arith, length-distinct-snoc xs y, contains-append x xs (y ∷ []), eq_iff x y, eq_iff y x)

pub contains-All {κ} :
    (P : String → Type κ) (s : String) (xs : List String) → contains s xs ≡ true → All P xs → P s
contains-All P s [] h all = absurd (ground arith)
contains-All P s (x ∷ xs) h all = elim (Bool-cases (x == s)) [
  | inl e ↦ subst P ((eq_iff x s).0 e) all.0
  | inr e ↦ contains-All P s xs (ground arith) all.1
]

distinct-seen :
    (x : String) (xs : List String) → contains x xs ≡ true → distinct (x ∷ xs) ≡ distinct xs
distinct-seen x xs h = ground arith

distinct-new :
    (x : String) (xs : List String) → contains x xs ≡ false → distinct (x ∷ xs) ≡ x ∷ distinct xs
distinct-new x xs h = ground arith

pub distinct-cons-ne-nil : (x : String) (xs : List String) → distinct (x ∷ xs) ≡ [] → ⊥
distinct-cons-ne-nil x [] h = ground arith
distinct-cons-ne-nil x (y ∷ xs) h = ground (arith, distinct-cons-ne-nil y xs)

-- a list with one distinct text is a list of that text
pub distinct-singleton :
    (o : String) (xs : List String) → distinct xs ≡ o ∷ [] → All (λ x. x ≡ o) xs
distinct-singleton o [] h = tt
distinct-singleton o (x ∷ []) h = ground arith
distinct-singleton o (x ∷ y ∷ xs) h = elim (Bool-cases (contains x (y ∷ xs))) [
  | inl e ↦
      let rest = distinct-singleton o (y ∷ xs) (sym (distinct-seen x (y ∷ xs) e) ∙ h) in
      (contains-All (λ x. x ≡ o) x (y ∷ xs) e rest, rest)
  | inr e ↦ absurd (distinct-cons-ne-nil y xs (cc (distinct-new x (y ∷ xs) e)))
]

pub distinct-pos : (xs : List String) → 1 ≤ length xs → 1 ≤ length (distinct xs)
distinct-pos [] h = absurd (omega arith)
distinct-pos (x ∷ []) h = omega arith
distinct-pos (x ∷ y ∷ xs) h = ground (arith, distinct-pos (y ∷ xs))

-- what a sorted list has in it, and how many distinct texts
contains-insert_sorted :
    (z x : String) (ys : List String) → contains z (insert_sorted x ys) ≡ (x == z || contains z ys)
contains-insert_sorted z x [] = refl
contains-insert_sorted z x (y ∷ ys) =
    elim (compare x y)
      as (λ o.
        contains z (elim o [
          | Ordering.lt ↦ x ∷ y ∷ ys
          | Ordering.eq ↦ x ∷ y ∷ ys
          | Ordering.gt ↦ y ∷ insert_sorted x ys
        ])
        ≡ (x == z || contains z (y ∷ ys))) [
          | Ordering.lt ↦ refl
          | Ordering.eq ↦ refl
          | Ordering.gt ↦ ground (arith, contains-insert_sorted z x ys)
        ]

pub contains-sorted : (z : String) (xs : List String) → contains z (sorted xs) ≡ contains z xs
contains-sorted z [] = refl
contains-sorted z (x ∷ xs) =
    contains-insert_sorted z x (sorted xs) ∙ ground (arith, contains-sorted z xs)

length-distinct-cons :
    (x : String) (xs : List String)
    → length (distinct (x ∷ xs)) ≡ (if contains x xs then 0 else 1) + length (distinct xs)
length-distinct-cons x xs = ground arith

length-distinct-insert_sorted :
    (x : String) (ys : List String)
    → length (distinct (insert_sorted x ys)) ≡ length (distinct (x ∷ ys))
length-distinct-insert_sorted x [] = refl
length-distinct-insert_sorted x (y ∷ ys) =
    elim (compare x y)
      as (λ o.
        length (
          distinct (elim o [
            | Ordering.lt ↦ x ∷ y ∷ ys
            | Ordering.eq ↦ x ∷ y ∷ ys
            | Ordering.gt ↦ y ∷ insert_sorted x ys
          ]))
        ≡ length (distinct (x ∷ y ∷ ys))) [
          | Ordering.lt ↦ refl
          | Ordering.eq ↦ refl
          | Ordering.gt ↦ ground (
            arith,
            length-distinct-cons y (insert_sorted x ys),
            length-distinct-cons x (y ∷ ys),
            length-distinct-cons y ys,
            length-distinct-cons x ys,
            length-distinct-insert_sorted x ys,
            contains-insert_sorted y x ys,
            eq_iff x y,
            eq_iff y x,
          )
        ]

pub length-distinct-sorted :
    (xs : List String) → length (distinct (sorted xs)) ≡ length (distinct xs)
length-distinct-sorted [] = refl
length-distinct-sorted (x ∷ xs) =
    length-distinct-insert_sorted x (sorted xs)
    ∙ ground (
      arith,
      length-distinct-cons x (sorted xs),
      length-distinct-cons x xs,
      contains-sorted x xs,
      length-distinct-sorted xs,
    )
