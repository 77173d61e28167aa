-- ===== src/Method/Final.antt =====
-- `_final_decision` and `_final_extraction` of research_methods/__init__.py: what the independent
-- decisions and their adjudication come to.
pub mod Agreement
pub mod Adjudicated
use polder_research_pipeline.Base.{
  ℕ, String, Bool, true, false, ◌&&◌, ◌||◌, Option, none, some, List, [], ◌∷◌, map, ltb, eqb, ◌==◌,
  is_some, if◌then◌else◌, length, select, all, first, last, contains, distinct,
}
use polder_research_pipeline.Method.Records.{Screening, Extraction, Protocol, Reviewer}

abbrev pub independent : List Screening → List Screening
independent = select (λ d. d.decision_kind == "independent")

abbrev pub adjudications : List Screening → List Screening
adjudications = select (λ d. d.decision_kind == "adjudication")

abbrev pub ids : List Screening → List String
ids = map (λ d. d.id)

abbrev pub reviewer_ids : List Screening → List String
reviewer_ids = map (λ d. d.reviewer_id)

abbrev pub outcomes : List Screening → List String
outcomes = map (λ d. d.outcome)

-- `a == b` for sets
abbrev pub same_set : List String → List String → Bool
same_set xs ys = all (λ x. contains x ys) xs && all (λ y. contains y xs) ys

-- the last adjudication counts if it resolves exactly these decisions
unfoldable pub by_adjudication : Option Screening → List Screening → Option String
by_adjudication none decided = none
by_adjudication (some adjudication) decided =
    let resolved = adjudication.resolves_decision_ids in
    if eqb (length (distinct resolved)) (length decided) && same_set resolved (ids decided)
    then some adjudication.outcome
    else none

-- `next(iter(outcomes))` of a set of one, or the adjudication
unfoldable pub agreed : List String → Option String → Option String
agreed (outcome ∷ []) adjudicated = some outcome
agreed _ adjudicated = adjudicated

unfoldable pub final_decision : List Screening → Option String
final_decision decisions =
    let decided = independent decisions in
    if ltb (length decided) 2 || ltb (length (distinct (reviewer_ids decided))) 2
    then none
    else agreed (distinct (outcomes decided))
        (by_adjudication (last (adjudications decisions)) decided)

-- the independence group of a reviewer whom the protocol lists
abbrev pub group_of : List Reviewer → String → Option String
group_of reviewers id = elim (first (λ (r : Reviewer). r.id == id) reviewers) [
  | none ↦ none
  | some r ↦ some r.independence_group
]

abbrev pub groups_of : List Reviewer → List String → List String
groups_of reviewers [] = []
groups_of reviewers (id ∷ rest) = elim (group_of reviewers id) [
  | none ↦ groups_of reviewers rest
  | some g ↦ g ∷ groups_of reviewers rest
]

abbrev pub extracted : String → List Extraction → List Extraction
extracted kind = select (λ e. e.record_kind == kind)

-- `(status, value)` of a record
abbrev pub Signature : Type 0
Signature = String × Option String

abbrev pub same_value : Option String → Option String → Bool
same_value none none = true
same_value (some a) (some b) = a == b
same_value _ _ = false

abbrev pub same_signature : Signature → Signature → Bool
same_signature (s, v) (s', v') = s == s' && same_value v v'

abbrev pub signature : Extraction → Signature
signature e = (e.status, e.value)

abbrev pub extraction_ids : List Extraction → List String
extraction_ids = map (λ e. e.id)

unfoldable pub extraction_by_adjudication : Option Extraction → List Extraction → Option Signature
extraction_by_adjudication none decided = none
extraction_by_adjudication (some adjudication) decided =
    let resolved = adjudication.resolves_extraction_ids in
    if eqb (length (distinct resolved)) (length decided)
      && same_set resolved (extraction_ids decided)
    then some (signature adjudication)
    else none

-- all signatures are that of the first
abbrev pub unanimous : List Extraction → Bool
unanimous [] = false
unanimous (e ∷ rest) = all (λ f. same_signature (signature f) (signature e)) rest

unfoldable pub final_extraction : List Extraction → Protocol → Option Signature
final_extraction records protocol =
    let decided = extracted "independent" records in
    let reviewers = map (λ (e : Extraction). e.reviewer_id) decided in
    if ltb (length decided) 2
      || ltb (length (distinct reviewers)) 2
      || ltb (length (distinct (groups_of protocol.reviewers reviewers))) 2
    then none
    else elim decided [
      | [] ↦ none
      | e ∷ rest ↦
          if unanimous (e ∷ rest)
          then some (signature e)
          else extraction_by_adjudication (last (extracted "adjudication" records)) (e ∷ rest)
    ]
